-- ===== src/Lib.antt =====
-- xhnet: a library of networking tools in C++, with buffers, memory pools and helpers.
--
-- The parts that are modelled, with the files of the repository that they translate:
--
-- IoBuffer (include/net/iobuffer.h, include/xhhead.h): `CIOBuffer`, the buffer through which every
-- packet is written and read. `IoBuffer` is its state, and `Cmd` an operation, which returns, throws
-- `overflow`, or leaves the memory. IoBuffer.antt has the raw operations, IoBuffer/Scalar.antt the
-- overloads for scalars, which ask `get_system_endian`, IoBuffer/Text.antt those for strings and
-- `readcstring`, and IoBuffer/Vector.antt those for containers, which call the overloads of their
-- elements: `Codec` is that interface. The children of these files prove what the operations do in
-- terms of the queue of bytes between the two pointers.
--
-- Memory.Page (include/memory/mpage.h, source/memory/mpage.cpp): `CMPage`, a page of blocks of one
-- size. Memory/Page.antt has the operations, FreeList the list of free blocks, Layout the place of
-- the blocks in the memory, and Pool and Client a client that takes, fills and gives back blocks.
--
-- Memory.Manager (include/memory/mpagemgr.h, source/memory/mpagemgr.cpp): `CSameSizeMPageMgr`, which
-- keeps the pages of one size of blocks. Memory/Manager.antt has its state and operations over
-- `Memory.Page`, Sound what holds between them, Picks and Current the choice of a page, Calls and Frees
-- the two calls, and Reach the runs of a client.
--
-- Utility (source/utility/utility.cpp): Utility.antt has `SplitString` and `StrHash`,
-- Utility/Uint.antt `UINTAdd`, `UINTSub`, `GenRandUINT` and `IsDigit`, and Utility/Dates.antt the
-- dates, with `mktime` and `localtime` as parameters.
--
-- Ref (include/ref/cppref.h): `CPPRef` and `CPPRefPtr`, counted objects and their pointers. Ref.antt has
-- the operations, Counts what they do to one count, and Pointers the runs of a program that uses them.
--
-- Actions (include/log/actionstat.h, source/log/actionstat.cpp): `CActionStat`, the number and the
-- time of the actions of each name. Actions.antt has `AddAction`, Actions/Totals.antt the totals.
--
-- Message.Head (net-qyfh/msgstream.h): `CMessageHead_24`, the head of a message, written and read
-- through the overloads of `CIOBuffer` for `unsigned short` and `unsigned int`.
--
-- Message.Client (net-qyfh/socketclient.h), Message.Server (net-qyfh/socketserver.h) and
-- Message.Listener (net-qyfh/socketlistener.h): `CTcpSocketClient`, `CTcpSocketServer` and
-- `CTcpSocketListener`, each with its state, its calls, the functions that it posts and the callbacks
-- of its socket. What they do with their sockets, timers and users is kept as a list.
-- Message/Packet.antt has the buffers that they send and receive, and Message/Client/Steps.antt the
-- runs of a client. Message/Reader.antt is the interface to the socket at which bytes arrive, with what may come of them,
-- Stream of either end cuts them into messages, and Message/Link.antt joins the two ends.
--
-- Md5 (include/md5/md5.h, source/md5/md5.cpp): `MD5Init`, `MD5Update`, `MD5Final` in Md5.antt, and
-- `MD5Transform` in Md5/Transform.antt. Md5/Reference.antt is the padded message hashed as a whole.
--
-- Net.Tcp (include/net/tcpsocket.h, source/net/impl_tcpsocket.h, source/net/impl_tcpsocket.cpp):
-- `CTcpSocket`. Net/Tcp.antt has the state. Of its children, Calls has what the user calls and the
-- callbacks, Close `on_inter_close`, Data `on_inter_recv` and `on_inter_send`, Open `real_listen`,
-- `real_connect`, `real_fini` and the accept, and Steps the steps: calls, functions that the server
-- runs from its queue, and events of libevent. The user is a function from what has happened so far
-- to the calls in a callback, and what the platform does is an argument of a step. The other children
-- prove what holds in every run.
--
-- Net.Timer (include/net/timer.h, source/net/impl_timer.h, source/net/impl_timer.cpp): `CTimer`.
-- Net/Timer.antt has its operations. Protocol and Timely are about what it tells its user, and Posted,
-- Ended, Finishing and Finish about its end.
--
-- Net.IoServer (source/net/impl_ioserver.h, source/net/impl_ioserver.cpp): `CIOServer`, which runs the
-- posted functions in rounds. Net/IoServer.antt has the state and the operations, with the posted
-- functions as a parameter; Order, Blocked and End are about their order, about
-- exceptions, and about the end of a server, whose own timer is here its status alone. `Net.Tcp` and
-- `Net.Timer` keep the functions that are posted for one socket or timer in a queue of its own, in
-- the order in which the server runs them.
--
-- Bounds: bytes are numbers, `unsigned int` and `unsigned long` wrap around at 2 ^ 32 and 2 ^ 64,
-- pointers have 64 bits, and `malloc` is a parameter: the address that it returns and what stands
-- there. The loop of `SplitString` runs on fuel, and the length of the string and one more
-- are enough. The loop of `MD5Update` has one turn for each byte of the input. The loops of
-- `on_inter_close` have one turn for each buffer that waits, and the loop of `on_inter_send`
-- one for each result of `send`; a call of `send` after the last one would block. Bytes that arrive
-- are read on fuel, and one turn for each byte is enough.
--
-- Not modelled: UDP sockets, libevent, `CNetIO` and the threads of the message layer, `CMPageMgr` and
-- the object pools, log files and assertions, and the vendored libraries.
pub mod Common
pub mod IoBuffer
pub mod Memory
pub mod Utility
pub mod Ref
pub mod Message
pub mod Net
pub mod Md5
pub mod Actions

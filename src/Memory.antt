-- ===== src/Memory.antt =====
-- The memory of source/memory: pages of blocks, and the managers of pages.
pub mod Page
pub mod Manager

-- ===== src/Md5/Runs.antt =====
-- The test suite of RFC 1321, in part.
use xhnet.Common.{arith, ◌≡◌, refl, [], ◌∷◌}
use xhnet.Md5.{md5_init, md5_update, md5_final, zero_bytes}
use xhnet.Md5.Transform.{transform}
use xhnet.Md5.Reference.{md5_reference}
use xhnet.Md5.Digest.{md5_updates, md5_pieces}

-- MD5("abc")
md5-abc :
    md5_final (md5_update (97 ∷ 98 ∷ 99 ∷ []) (md5_init (zero_bytes 64)))
    ≡ 0x90 ∷ 0x01 ∷ 0x50 ∷ 0x98 ∷ 0x3c ∷ 0xd2 ∷ 0x4f ∷ 0xb0 ∷ 0xd6 ∷ 0x96 ∷ 0x3f ∷ 0x7d ∷ 0x28
      ∷ 0xe1 ∷ 0x7f ∷ 0x72 ∷ []
unfolding md5_init md5_final md5_update transform
md5-abc = refl

md5_pieces_example :
    md5_final (md5_updates ((97 ∷ []) ∷ [] ∷ (98 ∷ 99 ∷ []) ∷ []) (md5_init (zero_bytes 64)))
    ≡ md5_reference (97 ∷ 98 ∷ 99 ∷ [])
md5_pieces_example =
    md5_pieces (zero_bytes 64) ((97 ∷ []) ∷ [] ∷ (98 ∷ 99 ∷ []) ∷ []) refl
      (omega arith, (omega arith, (omega arith, tt)))

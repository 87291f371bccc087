-- ===== src/Argon2/Blake2b/Tests.antt =====
-- Hashes of short inputs.
use security_core.Common.{◌≡◌, refl, arith, none, some, [], ◌∷◌, codes}
use security_core.Argon2.Blake2b.Word.{store64}
use security_core.Argon2.Blake2b.Stream.{
  cleared, blake2b_init, blake2b_update, update_bytes, keep_rest, last_block, store_words,
  blake2b_set_lastblock, blake2b_final,
}
use security_core.Argon2.Blake2b.Compress.{blake2b_compress, blake2b_increment_counter}
use security_core.Argon2.Blake2b.Stream.Chunks.{fed_all}
use security_core.Argon2.Blake2b.Hash.{blake2b, blake2b_long}
use security_core.Argon2.Blake2b.Hash.Whole.{final-pieces}
use security_core.Argon2.Blake2b.Hash.Size.{Answers}
use security_core.Argon2.Blake2b.Hash.Long.{blake2b_long-Answers}

final-pieces_example :
    (blake2b_final (fed_all (blake2b_init cleared 32).0 (codes "a" ∷ [] ∷ codes "bc" ∷ [])) 32).1
    ≡ blake2b 32 (some (codes "abc")) 3 none 0
final-pieces_example =
    final-pieces 32 (codes "a" ∷ [] ∷ codes "bc" ∷ []) (omega arith) (omega arith)

blake2b_long-Answers_example : Answers 1024 (blake2b_long 1024 (some (codes "abc")) 3)
blake2b_long-Answers_example = blake2b_long-Answers 1024 (codes "abc") (omega arith) (omega arith)

-- RFC 7693, appendix A.
abc_test :
    blake2b 64 (some (codes "abc")) 3 none 0
    ≡ some (
        0xba ∷ 0x80 ∷ 0xa5 ∷ 0x3f ∷ 0x98 ∷ 0x1c ∷ 0x4d ∷ 0x0d ∷ 0x6a ∷ 0x27 ∷ 0x97 ∷ 0xb6 ∷ 0x9f
        ∷ 0x12 ∷ 0xf6 ∷ 0xe9 ∷ 0x4c ∷ 0x21 ∷ 0x2f ∷ 0x14 ∷ 0x68 ∷ 0x5a ∷ 0xc4 ∷ 0xb7 ∷ 0x4b ∷ 0x12
        ∷ 0xbb ∷ 0x6f ∷ 0xdb ∷ 0xff ∷ 0xa2 ∷ 0xd1 ∷ 0x7d ∷ 0x87 ∷ 0xc5 ∷ 0x39 ∷ 0x2a ∷ 0xab ∷ 0x79
        ∷ 0x2d ∷ 0xc2 ∷ 0x52 ∷ 0xd5 ∷ 0xde ∷ 0x45 ∷ 0x33 ∷ 0xcc ∷ 0x95 ∷ 0x18 ∷ 0xd3 ∷ 0x8a ∷ 0xa8
        ∷ 0xdb ∷ 0xf1 ∷ 0x92 ∷ 0x5a ∷ 0xb9 ∷ 0x23 ∷ 0x86 ∷ 0xed ∷ 0xd4 ∷ 0x00 ∷ 0x99 ∷ 0x23 ∷ [])
unfolding blake2b blake2b_init blake2b_update update_bytes keep_rest blake2b_final last_block
    store_words blake2b_set_lastblock blake2b_increment_counter blake2b_compress store64
abc_test = refl

-- ===== src/Bundle/Header/Canonical.antt =====
-- `serialize` of Sources/UltraLockedFormat/BundleHeader.swift on what `parse` accepts.
use security_core.Common.{
  ℕ, zero, suc, ◌+◌, ◌*◌, ◌^◌, ◌≤◌, ◌<◌, ◌≡◌, refl, sym, ap, ap₂, ◌∙◌, true, some, [], ◌∷◌, ◌++◌,
  Bytes, length, length-take, length-drop, drop-drop, take-all, take, drop, replicate, arith, ok,
  >>=-eq-ok, guard-eq-ok, AreBytes, All-take, take-append-drop, bit_or, leb,
}
use security_core.Common.Bits.{bit_or-shifted}
use mathlib.Core.Path.{subst}
use security_core.Bundle.Header.{
  BundleHeader, magic, le16, le32, read_le16, read_le32, serialize, check_magic, all_zero,
  header_at, parse_bytes, parse, byte_at, subdata,
}
use security_core.Bundle.Header.Valid.{IsHeader, init_header-IsHeader}
use security_core.Bundle.Header.RoundTrip.{layout, zeros, serialize-layout, read_le32_sum}

byte_at-lt : (xs : Bytes) (i : ℕ) → AreBytes xs → byte_at xs i < 256
byte_at-lt [] i h = omega arith
byte_at-lt (x ∷ xs) zero h = h.0
byte_at-lt (x ∷ xs) (suc i) h = byte_at-lt xs i h.1

-- One byte of a slice.
take-drop-suc :
    (n i : ℕ) (xs : Bytes)
    → i < length xs
    → take (suc n) (drop i xs) ≡ byte_at xs i ∷ take n (drop (i + 1) xs)
take-drop-suc n i [] h = absurd (omega arith)
take-drop-suc n zero (x ∷ xs) h = refl
take-drop-suc n (suc i) (x ∷ xs) h =
    let e : suc i + 1 ≡ suc (i + 1) = omega arith in rw e (take-drop-suc n i xs (omega arith))

check_magic_head :
    (i m : ℕ) (ms xs : Bytes)
    → check_magic i (m ∷ ms) xs ≡ ok tt
    → (byte_at xs i ≡ m) × (check_magic (i + 1) ms xs ≡ ok tt)
unfolding check_magic
check_magic_head i m ms xs e = ground arith

check_magic_slice :
    (i : ℕ) (ms xs : Bytes)
    → i + length ms ≤ length xs
    → check_magic i ms xs ≡ ok tt
    → take (length ms) (drop i xs) ≡ ms
unfolding check_magic
check_magic_slice i [] xs h e = refl
check_magic_slice i (m ∷ ms) xs h e =
    let (head, rest) = check_magic_head i m ms xs e in
    rw (take-drop-suc (length ms) i xs (omega arith), head)
      (ap (λ t. m ∷ t) (check_magic_slice (i + 1) ms xs (omega arith) rest))

all_zero_slice : (xs : Bytes) → all_zero xs ≡ true → xs ≡ replicate (length xs) 0
unfolding all_zero
all_zero_slice [] h = refl
all_zero_slice (x ∷ xs) h = ground (arith, all_zero_slice xs)

le16_bytes : (a b : ℕ) → a < 256 → b < 256 → le16 (bit_or a (b * 2 ^ 8)) ≡ a ∷ b ∷ []
le16_bytes a b ha hb = rw (bit_or-shifted 8 a b ha) (ground arith)

le32_bytes :
    (a b c d : ℕ)
    → a < 256
    → b < 256
    → c < 256
    → d < 256
    → le32 (bit_or (bit_or (bit_or a (b * 2 ^ 8)) (c * 2 ^ 16)) (d * 2 ^ 24)) ≡ a ∷ b ∷ c ∷ d ∷ []
le32_bytes a b c d ha hb hc hd = rw (read_le32_sum a b c d ha hb hc) (ground arith)

module _ (xs : Bytes) (len : length xs ≡ 96) (bytes : AreBytes xs) where
  -- A part of the layout in front of the parts behind it.
  glue :
      {part rest : Bytes} (n i j : ℕ)
      → i + n ≡ j
      → part ≡ take n (drop i xs)
      → rest ≡ drop j xs
      → part ++ rest ≡ drop i xs
  glue n i j e p q =
      ap₂ ◌++◌ p (q ∙ sym (drop-drop i n j xs (sym e))) ∙ take-append-drop n (drop i xs)

  one_at : (i : ℕ) → i < 96 → byte_at xs i ∷ [] ≡ take 1 (drop i xs)
  one_at i h = sym (take-drop-suc 0 i xs (omega arith))

  two_at : (i : ℕ) → i + 2 ≤ 96 → le16 (read_le16 xs i) ≡ take 2 (drop i xs)
  unfolding read_le16
  two_at i h =
      rw (take-drop-suc 1 i xs (omega arith), take-drop-suc 0 (i + 1) xs (omega arith))
        (le16_bytes _ _ (byte_at-lt xs i bytes) (byte_at-lt xs (i + 1) bytes))

  three :
      (i j k : ℕ)
      → i + 1 ≡ j
      → j + 1 ≡ k
      → k < 96
      → take 3 (drop i xs) ≡ byte_at xs i ∷ byte_at xs j ∷ byte_at xs k ∷ []
  three i j k p q h =
      take-drop-suc 2 i xs (omega arith)
      ∙ rw (p, take-drop-suc 1 j xs (omega arith), q, take-drop-suc 0 k xs (omega arith))

  four_at : (i : ℕ) → i + 4 ≤ 96 → le32 (read_le32 xs i) ≡ take 4 (drop i xs)
  unfolding read_le32
  four_at i h =
      le32_bytes _ _ _ _ (byte_at-lt xs i bytes) (byte_at-lt xs (i + 1) bytes)
        (byte_at-lt xs (i + 2) bytes) (byte_at-lt xs (i + 3) bytes)
      ∙ sym (
          take-drop-suc 3 i xs (omega arith)
          ∙ ap (λ t. byte_at xs i ∷ t)
              (three (i + 1) (i + 2) (i + 3) (omega arith) (omega arith) (omega arith)))

  layout-header_at :
      check_magic 0 magic xs ≡ ok tt
      → all_zero (subdata xs 52 96) ≡ true
      → layout (header_at xs) zeros ≡ xs
  unfolding header_at
  layout-header_at m z = glue 8 0 8 refl (sym (check_magic_slice 0 magic xs (omega arith) m)) (
      glue 2 8 10 refl (two_at 8 (omega arith)) (
        glue 1 10 11 refl (one_at 10 (omega arith)) (
          glue 4 11 15 refl (four_at 11 (omega arith)) (
            glue 4 15 19 refl (four_at 15 (omega arith)) (
              glue 1 19 20 refl (one_at 19 (omega arith)) (
                glue 16 20 36 refl refl (
                  glue 12 36 48 refl refl
                    (glue 4 48 52 refl (four_at 48 (omega arith)) reserved))))))))
    where
      whole : take 44 (drop 52 xs) ≡ drop 52 xs
      whole = take-all 44 (drop 52 xs) (omega (arith, length-drop 52 xs))

      count : length (drop 52 xs) ≡ 44
      count = omega (arith, length-drop 52 xs)

      reserved : zeros ≡ drop 52 xs
      reserved = sym (
          all_zero_slice (drop 52 xs) (ap all_zero (sym whole) ∙ z) ∙ ap (λ n. replicate n 0) count)

parse_bytes-eq-ok :
    (xs : Bytes) (h : BundleHeader)
    → parse_bytes xs ≡ ok h
    → (check_magic 0 magic xs ≡ ok tt)
      × (all_zero (subdata xs 52 96) ≡ true)
      × (h ≡ header_at xs)
      × IsHeader h
unfolding parse_bytes
parse_bytes-eq-ok xs h e =
    let (t, m, r) = >>=-eq-ok (check_magic 0 magic xs) _ e in
    let (z, r') = guard-eq-ok (all_zero (subdata xs 52 96)) _ _ r in
    let (is, v) = init_header-IsHeader (header_at xs) h r' in (m, z, is, subst IsHeader (sym is) v)

-- What `parse` accepts begins with exactly the bytes that `serialize` writes for the header that
-- it returns, and this header is valid.
pub serialize-parse :
    (input : Bytes) (h : BundleHeader)
    → AreBytes input
    → parse input ≡ ok h
    → IsHeader h × (96 ≤ length input) × (serialize h ≡ some (take 96 input))
unfolding parse
serialize-parse input h b e =
    let (long, r) = guard-eq-ok (leb 96 (length input)) _ _ e in
    let xs = take 96 input in
    let size : 96 ≤ length input = ground arith in
    let len : length xs ≡ 96 = omega (arith, length-take 96 input) in
    let (m, z, is, v) = parse_bytes-eq-ok xs h r in
    (
      v,
      size,
      serialize-layout h v
          ∙ ap some (
              ap (λ g. layout g zeros) is
              ∙ layout-header_at xs len (All-take (λ x. x < 256) 96 input b) m z),
    )

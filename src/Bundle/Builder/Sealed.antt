-- ===== src/Bundle/Builder/Sealed.antt =====
-- What the two loops over the items leave: a descriptor with its nonce and a record for each.
use security_core.Common.{
  ℕ, ◌+◌, ◌≡◌, ◌^◌, sym, List, [], ◌∷◌, Bytes, length, length-append, ltb, ◌==◌, ==_iff, ok,
  >>=-elim, subst, guard-eq-ok, arith,
}
use security_core.Bundle.Limits.{validate_item_size}
use security_core.Bundle.Failure.{trapped, attempt, attempt-eq-ok}
use security_core.Bundle.Crypto.{Cryptography}
use security_core.Bundle.ItemRecord.{encrypt_item}
use security_core.Bundle.Random.{RandomSource, random_bytes}
use security_core.Bundle.Manifest.{ItemDescriptor, init_descriptor}
use security_core.Bundle.Manifest.Valid.{IsDescriptor, init_descriptor-eq-ok}
use security_core.Bundle.Builder.{ItemContent, describe, stage_items, encrypt_items, concat}

module _ {D : Type 0} where
  -- The descriptor is that of the item with the nonce, and it is valid.
  abbrev pub Describes : ItemContent D → ItemDescriptor D × Bytes → Type 0
  Describes item s = (s.0 ≡ describe item s.1) × IsDescriptor s.0

  abbrev pub Staged : List (ItemContent D) → List (ItemDescriptor D × Bytes) → Type 0
  Staged [] [] = Unit {0}
  Staged [] (s ∷ staged) = ⊥
  Staged (item ∷ items) [] = ⊥
  Staged (item ∷ items) (s ∷ staged) = Describes item s × Staged items staged

  abbrev pub item_ids : List (ItemContent D) → List Bytes
  item_ids [] = []
  item_ids (item ∷ items) = item.id ∷ item_ids items

  pub stage_items-Staged :
      (source : RandomSource) (call : ℕ) (items : List (ItemContent D))
      (staged : List (ItemDescriptor D × Bytes))
      → stage_items source call items ≡ ok staged
      → Staged items staged
  unfolding stage_items
  stage_items-Staged source call [] [] h = tt
  stage_items-Staged source call [] (s ∷ staged) h = cc
  stage_items-Staged source call (item ∷ items) staged h =
      >>=-elim (random_bytes source call 12) h λ nonce _ h1.
        >>=-elim (attempt (validate_item_size (length item.plaintext + 16))) h1 λ _ _ h2.
          >>=-elim (attempt (init_descriptor (describe item nonce))) h2 λ d made h3.
            >>=-elim (stage_items source (call + 1) items) h3 λ rest later h4.
              let (same, valid) =
                init_descriptor-eq-ok (describe item nonce) d
                  (attempt-eq-ok (init_descriptor (describe item nonce)) made) in
              let whole : (d, nonce) ∷ rest ≡ staged = cc (h4) in
              subst (Staged (item ∷ items)) whole (
                (same, subst IsDescriptor (sym same) valid),
                stage_items-Staged source (call + 1) items rest later,
              )

  -- The record of each item is its encryption, and it has the size of the descriptor.
  module _ (c : Cryptography) (master header : Bytes) where
    abbrev pub Sealed : List (ItemContent D) → List (ItemDescriptor D × Bytes) → List Bytes → Type 0
    Sealed [] staged [] = Unit {0}
    Sealed [] staged (r ∷ records) = ⊥
    Sealed (item ∷ items) [] records = ⊥
    Sealed (item ∷ items) (s ∷ staged) [] = ⊥
    Sealed (item ∷ items) (s ∷ staged) (r ∷ records) =
        ((encrypt_item c item.plaintext master item.id s.1 header ≡ ok r)
          × (length r ≡ s.0.item_size))
        × Sealed items staged records

    pub encrypt_items-Sealed :
        (items : List (ItemContent D)) (staged : List (ItemDescriptor D × Bytes)) (total : ℕ)
        (records : List Bytes) (sum : ℕ)
        → encrypt_items c master header items staged total ≡ ok (records, sum)
        → Sealed items staged records × (sum ≡ total + length (concat records))
    unfolding encrypt_items
    encrypt_items-Sealed [] staged total [] sum h = (tt, ground arith)
    encrypt_items-Sealed [] staged total (r ∷ records) sum h = cc
    encrypt_items-Sealed (item ∷ items) [] total records sum h = cc
    encrypt_items-Sealed (item ∷ items) ((d, nonce) ∷ staged) total records sum h =
        >>=-elim (encrypt_item c item.plaintext master item.id nonce header) h λ bytes made h1.
          let (size, h2) = guard-eq-ok (length bytes == d.item_size) trapped _ h1 in
          let (small, h3) = guard-eq-ok (ltb (total + length bytes) (2 ^ 64)) trapped _ h2 in
          >>=-elim (encrypt_items c master header items staged (total + length bytes)) h3
            λ rest later h4.
              let (sealed, sum_rest) =
                encrypt_items-Sealed items staged (total + length bytes) rest.0 rest.1 later in
              let whole : (bytes ∷ rest.0, rest.1) ≡ (records, sum) = cc (h4) in
              subst
                (λ (t : List Bytes × ℕ).
                  Sealed (item ∷ items) ((d, nonce) ∷ staged) t.0
                  × (t.1 ≡ total + length (concat t.0)))
                whole
                (
                  ((made, (==_iff (length bytes) d.item_size).0 size), sealed),
                  omega (arith, sum_rest, length-append bytes (concat rest.0)),
                )

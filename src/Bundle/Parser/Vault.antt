-- ===== src/Bundle/Parser/Vault.antt =====
-- A bundle as a vault: the abstract view of a parser, which is open or closed and looks up the
-- plaintexts of the items that were exported. A client makes its calls one after the other.
use security_core.Common.{
  ℕ, suc, ◌≡◌, refl, sym, ap, ◌∙◌, Bool, true, false, none, some, List, [], ◌∷◌, get_elem?,
  Bool-cases, inl, inr, bytes_eq, bytes_eq-eq, Bytes, Result, ok, err, if◌then◌else◌,
}
use security_core.Bundle.Limits.{
  parameter_out_of_bounds, not_unlocked, manifest_parse_failed, unknown_item,
}
use security_core.Bundle.Failure.{Failure, thrown}
use security_core.Bundle.Crypto.{Cryptography}
use security_core.Bundle.KeyDerivation.{HashRaw}
use security_core.Bundle.Manifest.{ItemDescriptor, Manifest, Coder}
use security_core.Bundle.Manifest.Laws.{stored_items}
use security_core.Bundle.Builder.{ItemContent, descriptors}
use security_core.Bundle.Builder.Sealed.{Staged}
use security_core.Bundle.Parser.{BundleParser, first_index, unlock, lock, decrypt}

pub data Call (D : Type 0) : Type 0 where
  unlocking locking : Call D
  decrypting : ItemDescriptor D → Call D

pub data Answer (D : Type 0) : Type 0 where
  listing : Result Failure (Manifest D) → Answer D
  done : Answer D
  content : Result Failure Bytes → Answer D

module _ {D : Type 0} where
  -- The answers of the parser to the calls, each made with the passphrase.
  abbrev pub run_parser :
      Cryptography → Coder D → HashRaw → Bytes → BundleParser D → List (Call D) → List (Answer D)
  run_parser c j hash_raw passphrase p [] = []
  run_parser c j hash_raw passphrase p (unlocking ∷ calls) =
      let r = unlock c j hash_raw p passphrase in
      listing r.1 ∷ run_parser c j hash_raw passphrase r.0 calls
  run_parser c j hash_raw passphrase p (locking ∷ calls) =
      done ∷ run_parser c j hash_raw passphrase (lock p) calls
  run_parser c j hash_raw passphrase p (decrypting d ∷ calls) =
      content (decrypt c p d) ∷ run_parser c j hash_raw passphrase p calls

  abbrev pub find_plaintext : Bytes → List (ItemContent D) → Result Failure Bytes
  find_plaintext id [] = err (thrown (manifest_parse_failed (unknown_item id)))
  find_plaintext id (item ∷ items) =
      let rest = find_plaintext id items in if bytes_eq item.id id then ok item.plaintext else rest

  abbrev pub read_vault : List (ItemContent D) → Bool → Bytes → Result Failure Bytes
  read_vault items false id = err (thrown (parameter_out_of_bounds not_unlocked))
  read_vault items true id = find_plaintext id items

  -- The answers of the vault with the listing `m` and the items, open or not.
  abbrev pub run_vault : Manifest D → List (ItemContent D) → Bool → List (Call D) → List (Answer D)
  run_vault m items is_open [] = []
  run_vault m items is_open (unlocking ∷ calls) = listing (ok m) ∷ run_vault m items true calls
  run_vault m items is_open (locking ∷ calls) = done ∷ run_vault m items false calls
  run_vault m items is_open (decrypting d ∷ calls) =
      content (read_vault items is_open d.id) ∷ run_vault m items is_open calls

  -- The first item with the identifier, or none in the manifest either.
  pub data Search (stored : D → D) (id : Bytes) (items : List (ItemContent D))
      (listed : List (ItemDescriptor D)) : Type 0 where
    hit :
        (i : ℕ) (item : ItemContent D)
        → get_elem? items i ≡ some item
        → id ≡ item.id
        → find_plaintext id items ≡ ok item.plaintext
        → Search stored id items listed
    miss :
        find_plaintext id items ≡ err (thrown (manifest_parse_failed (unknown_item id)))
        → first_index id listed ≡ none
        → Search stored id items listed

  pub Staged-Search :
      (stored : D → D) (id : Bytes) (items : List (ItemContent D))
      (staged : List (ItemDescriptor D × Bytes))
      → Staged items staged
      → Search stored id items (stored_items stored (descriptors staged))
  unfolding first_index
  Staged-Search stored id [] [] h = miss refl refl
  Staged-Search stored id [] (s ∷ staged) h = absurd h
  Staged-Search stored id (item ∷ items) [] h = absurd h
  Staged-Search stored id (item ∷ items) (s ∷ staged) h = elim (Bool-cases (bytes_eq item.id id)) [
    | inl e ↦ hit 0 item refl (sym (bytes_eq-eq item.id id e)) (rw e)
    | inr e ↦
        let other : bytes_eq s.0.id id ≡ false =
          ap (λ (d : ItemDescriptor D). bytes_eq d.id id) h.0.0 ∙ e in
        elim (Staged-Search stored id items staged h.1) [
          | hit i x at same f ↦ hit (suc i) x at same (rw (e, f))
          | miss f g ↦ miss (rw (e, f)) (rw (other, g))
        ]
  ]

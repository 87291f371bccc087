-- ===== src/Bundle/Parser/Fits.antt =====
-- The place of a listed item in the sum of the item sizes.
use security_core.Common.{
  ℕ, suc, ◌+◌, ◌-◌, ◌≡◌, ◌<◌, ◌≤◌, refl, sym, subst, ap, ◌∙◌, if_cases, inl, inr, ◌⊎◌, Option, none,
  some, List, [], ◌∷◌, bytes_eq, bytes_eq-eq, Bytes, take, ltb, ok, guard-eq-ok, arith,
}
use security_core.Bundle.Failure.{trapped}
use security_core.Bundle.Manifest.{ItemDescriptor}
use security_core.Bundle.Parser.{add_sizes, shifted, first_index}
use security_core.Bundle.Parser.Sizes.{add_sizes-∷}

module _ {D : Type 0} where
  add_sizes-tail :
      (limit total sum : ℕ) (d : ItemDescriptor D) (items : List (ItemDescriptor D))
      → add_sizes limit total (d ∷ items) ≡ ok sum
      → add_sizes limit (total + d.item_size) items ≡ ok sum
  unfolding add_sizes
  add_sizes-tail limit total sum d items h =
      (guard-eq-ok (ltb (total + d.item_size) limit) trapped
        (add_sizes limit (total + d.item_size) items) h).1

  add_sizes-le :
      (limit total sum : ℕ) (items : List (ItemDescriptor D))
      → add_sizes limit total items ≡ ok sum
      → total ≤ sum
  unfolding add_sizes
  add_sizes-le limit total sum [] h = let e : total ≡ sum = cc (h) in omega arith
  add_sizes-le limit total sum (d ∷ items) h =
      let low =
        add_sizes-le limit (total + d.item_size) sum items
          (add_sizes-tail limit total sum d items h) in
      omega (arith, low)

  -- The entry at the index has the identifier, and from any offset the entries before it add up.
  pub record Fits (id : Bytes) (items : List (ItemDescriptor D)) (room index : ℕ)
      (entry : ItemDescriptor D) : Type 0 where
    pub front : ℕ
    pub fits : front + entry.item_size ≤ room
    pub named : entry.id ≡ id
    pub offset :
        (limit start : ℕ)
        → start + front < limit
        → add_sizes limit start (take index items) ≡ ok (start + front)

  shifted-eq-some :
      (r : Option (ℕ × ItemDescriptor D)) (index : ℕ) (entry : ItemDescriptor D)
      → shifted r ≡ some (index, entry)
      → (i : ℕ) × (index ≡ suc i) × (r ≡ some (i, entry))
  shifted-eq-some none index entry h = cc
  shifted-eq-some (some (i, d)) index entry h =
      let a : index ≡ suc i = cc (h) in
      let b : d ≡ entry = cc (h) in (i, a, ap (λ t. some (i, t)) b)

  first_index_cases :
      (id : Bytes) (d : ItemDescriptor D) (items : List (ItemDescriptor D)) (index : ℕ)
      (entry : ItemDescriptor D)
      → first_index id (d ∷ items) ≡ some (index, entry)
      → ((d.id ≡ id) × (index ≡ 0) × (d ≡ entry))
        ⊎ ((i : ℕ) × (index ≡ suc i) × (first_index id items ≡ some (i, entry)))
  unfolding first_index
  first_index_cases id d items index entry h = elim (if_cases (bytes_eq d.id id) h) [
    | inl (e, f) ↦ inl (bytes_eq-eq d.id id e, cc (f), cc (f))
    | inr (e, f) ↦ inr (shifted-eq-some (first_index id items) index entry f)
  ]

  Fits-here :
      (id : Bytes) (d : ItemDescriptor D) (items : List (ItemDescriptor D)) (limit total sum : ℕ)
      → add_sizes limit total (d ∷ items) ≡ ok sum
      → d.id ≡ id
      → Fits id (d ∷ items) (sum - total) 0 d
  unfolding add_sizes
  Fits-here id d items limit total sum h e =
      let low =
        add_sizes-le limit (total + d.item_size) sum items
          (add_sizes-tail limit total sum d items h) in
      record {
        front = 0;
        fits = omega (arith, low);
        named = e;
        offset = λ limit start h. ap ok (omega arith);
      }

  Fits-later :
      (id : Bytes) (d : ItemDescriptor D) (items : List (ItemDescriptor D)) (limit total sum i : ℕ)
      (entry : ItemDescriptor D)
      → add_sizes limit total (d ∷ items) ≡ ok sum
      → Fits id items (sum - (total + d.item_size)) i entry
      → Fits id (d ∷ items) (sum - total) (suc i) entry
  Fits-later id d items limit total sum i entry h f =
      let low =
        add_sizes-le limit (total + d.item_size) sum items
          (add_sizes-tail limit total sum d items h) in
      record {
        front = d.item_size + f.front;
        fits = omega (arith, low, f.fits);
        named = f.named;
        offset = λ limit start h.
            add_sizes-∷ limit start (start + d.item_size) d (take i items) refl (omega arith)
            ∙ f.offset limit (start + d.item_size) (omega arith)
            ∙ ap ok (omega arith);
      }

  pub first_index-Fits :
      (id : Bytes) (items : List (ItemDescriptor D)) (limit total sum index : ℕ)
      (entry : ItemDescriptor D)
      → add_sizes limit total items ≡ ok sum
      → first_index id items ≡ some (index, entry)
      → Fits id items (sum - total) index entry
  unfolding first_index
  first_index-Fits id [] limit total sum index entry h e = cc
  first_index-Fits id (d ∷ items) limit total sum index entry h e =
      elim (first_index_cases id d items index entry e) [
        | inl (same, at, here) ↦
            subst (λ n. Fits id (d ∷ items) (sum - total) n entry) (sym at)
              (subst (λ t. Fits id (d ∷ items) (sum - total) 0 t) here
                (Fits-here id d items limit total sum h same))
        | inr (i, at, later) ↦
            subst (λ n. Fits id (d ∷ items) (sum - total) n entry) (sym at)
              (Fits-later id d items limit total sum i entry h (
                first_index-Fits id items limit (total + d.item_size) sum i entry
                  (add_sizes-tail limit total sum d items h) later))
      ]

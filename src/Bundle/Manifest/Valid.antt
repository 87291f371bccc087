-- ===== src/Bundle/Manifest/Valid.antt =====
-- The manifests that `validate` accepts.
use security_core.Common.{
  ℤ, pos, negsuc, ◌≡◌, ◌≤◌, ◌↔◌, refl, sym, ◌⊎◌, inl, inr, Bool, true, false, not, Option, none,
  some, List, [], ◌∷◌, Bytes, length, All, contains, Bool-cases, contains_iff, IsFresh, Distinct,
  ok, err, ◌>>◌, >>_iff, guard_iff, arith,
}
use security_core.Bundle.Limits.{validate_item_size_iff, manifest_parse_failed, duplicate_id}
use security_core.Bundle.Manifest.{
  both_or_none, is_current, ItemDescriptor, Manifest, validate_ttl_consistency, init_descriptor,
  validate_descriptor, validate_items, validate_unique, validate,
}

-- Both or neither.
abbrev pub AreTogether {ℓ κ} : {A : Type ℓ} {B : Type κ} → Option A → Option B → Type 0
AreTogether none none = Unit {0}
AreTogether none (some b) = ⊥
AreTogether (some a) none = ⊥
AreTogether (some a) (some b) = Unit {0}

iff_trans {ℓ κ μ} : {A : Type ℓ} {B : Type κ} {C : Type μ} → (A ↔ B) → (B ↔ C) → (A ↔ C)
iff_trans p q = ((λ a. q.0 (p.0 a)), (λ c. p.1 (q.1 c)))

×_iff {ℓ κ μ ν} :
    {A : Type ℓ} {B : Type κ} {C : Type μ} {E : Type ν} → (A ↔ C) → (B ↔ E) → ((A × B) ↔ (C × E))
×_iff p q = ((λ x. (p.0 x.0, q.0 x.1)), (λ x. (p.1 x.0, q.1 x.1)))

together_iff {ℓ κ} :
    {A : Type ℓ} {B : Type κ} (a : Option A) (b : Option B)
    → (both_or_none a b ≡ true) ↔ AreTogether a b
together_iff none none = ((λ h. tt), (λ h. refl))
together_iff none (some b) = ((λ h. cc), (λ h. absurd h))
together_iff (some a) none = ((λ h. cc), (λ h. absurd h))
together_iff (some a) (some b) = ((λ h. tt), (λ h. refl))

-- A key that joins the seen ones is to be new among the rest.
IsFresh-iff :
    (key : Bytes) (seen xs : List Bytes)
    → All (λ id. IsFresh id (key ∷ seen)) xs ↔ (IsFresh key xs × All (λ id. IsFresh id seen) xs)
IsFresh-iff key seen [] = ((λ h. (tt, tt)), (λ h. tt))
IsFresh-iff key seen (x ∷ xs) =
    let rest = IsFresh-iff key seen xs in
    (
      (λ h. (((λ e. h.0.0 (sym e)), (rest.0 h.1).0), (h.0.1, (rest.0 h.1).1))),
      (λ h. (((λ e. h.0.0 (sym e)), h.1.0), rest.1 (h.0.1, h.1.1))),
    )

all-IsFresh : (xs : List Bytes) → All (λ id. IsFresh id []) xs
all-IsFresh [] = tt
all-IsFresh (x ∷ xs) = (tt, all-IsFresh xs)

not_iff : (b : Bool) → (not b ≡ true) ↔ (b ≡ false)
not_iff b = ground arith

current_iff : (v : ℤ) → (is_current v ≡ true) ↔ (v ≡ pos 1)
current_iff (pos n) = ground arith
current_iff (negsuc n) = ((λ h. cc), (λ h. cc))

module _ {D : Type 0} where
  pub record IsDescriptor (d : ItemDescriptor D) : Type 0 where
    pub nonce_12 : length d.item_nonce ≡ 12
    pub size_range : (16 ≤ d.item_size) × (d.item_size ≤ 262144000)
    pub ttl : AreTogether d.ttl_seconds d.ttl_origin_epoch

  abbrev pub ids : List (ItemDescriptor D) → List Bytes
  ids [] = []
  ids (d ∷ items) = d.id ∷ ids items

  pub record IsManifest (m : Manifest D) : Type 0 where
    pub current : m.schema_version ≡ pos 1
    pub descriptors : All IsDescriptor m.items
    pub distinct : Distinct (ids m.items)

  ttl_iff :
      (d : ItemDescriptor D)
      → (validate_ttl_consistency d ≡ ok tt) ↔ AreTogether d.ttl_seconds d.ttl_origin_epoch
  unfolding validate_ttl_consistency
  ttl_iff d = iff_trans (guard_iff _ _) (together_iff d.ttl_seconds d.ttl_origin_epoch)

  validate_descriptor_iff :
      (d : ItemDescriptor D) → (validate_descriptor d ≡ ok tt) ↔ IsDescriptor d
  unfolding validate_descriptor
  validate_descriptor_iff d = ground (
    arith,
    (ttl_iff d).0,
    (ttl_iff d).1,
    (validate_item_size_iff d.item_size).0,
    (validate_item_size_iff d.item_size).1,
  )

  pub init_descriptor_iff : (d : ItemDescriptor D) → (init_descriptor d ≡ ok d) ↔ IsDescriptor d
  unfolding init_descriptor
  init_descriptor_iff d = ground (
    arith,
    (ttl_iff d).0,
    (ttl_iff d).1,
    (validate_item_size_iff d.item_size).0,
    (validate_item_size_iff d.item_size).1,
  )

  pub init_descriptor-eq-ok :
      (d r : ItemDescriptor D) → init_descriptor d ≡ ok r → (r ≡ d) × IsDescriptor d
  unfolding init_descriptor
  init_descriptor-eq-ok d r h =
      ground (arith, (ttl_iff d).0, (validate_item_size_iff d.item_size).0)

  items_iff :
      (items : List (ItemDescriptor D)) → (validate_items items ≡ ok tt) ↔ All IsDescriptor items
  unfolding validate_items
  items_iff [] = ((λ h. tt), (λ h. refl))
  items_iff (d ∷ items) =
      iff_trans (>>_iff (validate_descriptor d) (validate_items items))
        (×_iff (validate_descriptor_iff d) (items_iff items))

  -- With `seen` the loop asks for identifiers that are distinct and not seen.
  unique_iff :
      (seen : List Bytes) (items : List (ItemDescriptor D))
      → (validate_unique seen items ≡ ok tt)
        ↔ (Distinct (ids items) × All (λ id. IsFresh id seen) (ids items))
  unfolding validate_unique
  unique_iff seen [] = ((λ h. (tt, tt)), (λ h. refl))
  unique_iff seen (d ∷ items) = iff_trans (>>_iff _ (validate_unique (d.id ∷ seen) items)) (
      iff_trans (×_iff (guard_iff _ _) (unique_iff (d.id ∷ seen) items)) (
        (λ h.
            let split = (IsFresh-iff d.id seen (ids items)).0 h.1.1 in
            ((split.0, h.1.0), ((contains_iff seen d.id).0 ((not_iff _).0 h.0), split.1))),
        (λ h. (
          (not_iff _).1 ((contains_iff seen d.id).1 h.1.0),
          (h.0.1, (IsFresh-iff d.id seen (ids items)).1 (h.0.0, h.1.1)),
        )),
      ))

  -- `validate` accepts a manifest exactly if its schema version is 1, its descriptors are valid and
  -- their identifiers are distinct.
  pub validate_iff : (m : Manifest D) → (validate m ≡ ok tt) ↔ IsManifest m
  unfolding validate
  validate_iff m =
      let checks = iff_trans (>>_iff _ (validate_items m.items >> validate_unique [] m.items)) (
        ×_iff (iff_trans (guard_iff _ _) (current_iff m.schema_version)) (
          iff_trans (>>_iff (validate_items m.items) _)
            (×_iff (items_iff m.items) (unique_iff [] m.items)))) in
      (
        (λ h.
            let r = checks.0 h in
            record { current = r.0; descriptors = r.1.0; distinct = r.1.1.0 }),
        (λ v. checks.1 (v.current, (v.descriptors, (v.distinct, all-IsFresh (ids m.items))))),
      )

  unique_cases :
      (seen : List Bytes) (items : List (ItemDescriptor D))
      → (validate_unique seen items ≡ ok tt)
        ⊎ ((id : Bytes) × (validate_unique seen items
              ≡ err (manifest_parse_failed (duplicate_id id))))
  unfolding validate_unique
  unique_cases seen [] = inl refl
  unique_cases seen (d ∷ items) = elim (Bool-cases (contains seen d.id)) [
    | inl e ↦ inr (d.id, rw e)
    | inr e ↦ rw e (unique_cases (d.id ∷ seen) items)
  ]

  -- The error for identifiers that are not distinct.
  pub validate-duplicate :
      (m : Manifest D)
      → m.schema_version ≡ pos 1
      → All IsDescriptor m.items
      → ¬ Distinct (ids m.items)
      → (id : Bytes) × (validate m ≡ err (manifest_parse_failed (duplicate_id id)))
  unfolding validate
  validate-duplicate m v d repeated = elim (unique_cases [] m.items) [
    | inl e ↦ absurd (repeated ((unique_iff [] m.items).0 e).0)
    | inr (id, e) ↦ (id, rw ((current_iff m.schema_version).1 v, (items_iff m.items).1 d, e))
  ]

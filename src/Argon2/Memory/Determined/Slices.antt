-- ===== src/Argon2/Memory/Determined/Slices.antt =====
-- The first pass: after it the whole memory is determined.
use native.Mathlib.Nat.{mod-lt}
use security_core.Common.{
  ℕ, zero, suc, ◌+◌, ◌-◌, ◌*◌, ◌/◌, ◌%◌, ◌≡◌, ◌≤◌, ◌<◌, refl, sym, ap, subst, ◌∙◌, ◌⊎◌, inl, inr,
  List, [], ◌∷◌, length, get_or, lt_or_le, arith,
}
use security_core.Argon2.Index.{Instance}
use security_core.Argon2.Index.Layout.{IsLayout}
use security_core.Argon2.Memory.Segment.{Memory, block_at, fill_segment}
use security_core.Argon2.Memory.Segment.Place.{lane_start, offset_end}
use security_core.Argon2.Memory.Segment.Local.{extensional}
use security_core.Argon2.Memory.Passes.{
  start_of, lanes_to, fill_slice, fill_slices, fill_passes, fill_memory_blocks_st,
}
use security_core.Argon2.Memory.Shape.{IsShaped, fill_slices-IsShaped}
use security_core.Argon2.Memory.Threads.Invariant.{IsInside}
use security_core.Argon2.Memory.Determined.{Similar, fill_segment-Similar}

get_or-behind {ℓ} : {A : Type ℓ} (xs : List A) (k : ℕ) (d : A) → length xs ≤ k → get_or xs k d ≡ d
get_or-behind [] k d h = refl
get_or-behind (x ∷ xs) zero d h = absurd (omega (arith, h))
get_or-behind (x ∷ xs) (suc k) d h = get_or-behind xs k d (omega (arith, h))

module _ (i : Instance) (layout : IsLayout i) where
  -- The first two blocks of each lane, and the slices before `s`.
  pub record IsKnown (s k : ℕ) : Type 0 where
    pub lane : ℕ
    pub place : ℕ
    pub at : k ≡ lane_start i lane + place
    pub lane_low : lane < i.lanes
    pub place_low : place < i.lane_length
    pub early : (place < s * i.segment_length) ⊎ (place < 2)

  -- And the segments of the lanes before `n`.
  abbrev IsKnownTo : ℕ → ℕ → ℕ → Type 0
  IsKnownTo s n k = IsKnown s k ⊎ ((l : ℕ) × (l < n) × IsInside i (start_of 0 s l) k)

  fill_slice-lanes_to :
      (s n : ℕ) (rest : List ℕ) (m : Memory)
      → fill_slice i 0 s (lanes_to n rest) m
        ≡ fill_slice i 0 s rest (fill_slice i 0 s (lanes_to n []) m)
  unfolding fill_slice
  fill_slice-lanes_to s zero rest m = refl
  fill_slice-lanes_to s (suc n) rest m =
      fill_slice-lanes_to s n (n ∷ rest) m
      ∙ ap (fill_slice i 0 s rest) (sym (fill_slice-lanes_to s n (n ∷ []) m))

  slice_fits : (s : ℕ) → s < 4 → s * i.segment_length + i.segment_length ≤ i.lane_length
  slice_fits s h = offset_end i layout (start_of 0 s 0) h

  module _ (s : ℕ) (slice : s < 4) where
    fill_slice-Similar :
        (n : ℕ) (m m' : Memory)
        → n ≤ i.lanes
        → Similar (IsKnown s) m m'
        → Similar
            (IsKnownTo s n)
            (fill_slice i 0 s (lanes_to n []) m)
            (fill_slice i 0 s (lanes_to n []) m')
    unfolding fill_slice
    fill_slice-Similar zero m m' h (size, same) = (
      size,
      λ k now. elim now [ inl q ↦ same k q | inr (l, low, _) ↦ absurd (omega (arith, low)) ],
    )
    fill_slice-Similar (suc n) m m' h similar =
        let p = start_of 0 s n in
        let fits = slice_fits s slice in
        let two_blocks = layout.two_blocks in
        let four = layout.four_segments in
        let (size, same) =
          fill_segment-Similar i layout p (omega (arith, h)) slice refl (IsKnownTo s n)
            (λ lane place low less. inl (record {
              lane = lane;
              place = place;
              at = refl;
              lane_low = low;
              place_low = omega (arith, less, fits);
              early = inl less;
            }))
            (fill_slice i 0 s (lanes_to n []) m) (fill_slice i 0 s (lanes_to n []) m')
            (λ z k from below. inl (record {
              lane = n;
              place = k - lane_start i n;
              at = omega (arith, from);
              lane_low = omega (arith, h);
              place_low = omega (arith, below, four, two_blocks);
              early = inr (omega (arith, from, below));
            }))
            (fill_slice-Similar n m m' (omega (arith, h)) similar) in
        subst (λ t. Similar (IsKnownTo s (suc n)) t (fill_slice i 0 s (lanes_to (suc n) []) m'))
          (sym (fill_slice-lanes_to s n (n ∷ []) m))
          (subst
            (λ t.
              Similar (IsKnownTo s (suc n)) (fill_segment i p (fill_slice i 0 s (lanes_to n []) m))
                t)
            (sym (fill_slice-lanes_to s n (n ∷ []) m'))
            (
              size,
              λ k now. same k (elim now [
                | inl q ↦ inl (inl q)
                | inr (l, low, inside) ↦ elim (lt_or_le l n) [
                  | inl less ↦ inl (inr (l, less, inside))
                  | inr more ↦
                      inr (
                        subst (λ x. IsInside i (start_of 0 s x) k) (omega (arith, low, more))
                          inside)
                ]
              ]),
            ))

    -- A block of the next slice is in the segment of its lane.
    known_next : (k : ℕ) → IsKnown (s + 1) k → IsKnownTo s i.lanes k
    known_next k h =
        let at = h.at in
        let keep : (h.place < s * i.segment_length) ⊎ (h.place < 2) → IsKnownTo s i.lanes k = λ e.
          inl (record {
            lane = h.lane;
            place = h.place;
            at = at;
            lane_low = h.lane_low;
            place_low = h.place_low;
            early = e;
          }) in
        elim h.early [
          | inr two ↦ keep (inr two)
          | inl less ↦ elim (lt_or_le h.place (s * i.segment_length)) [
            | inl before ↦ keep (inl before)
            | inr here ↦
                let next : (s + 1) * i.segment_length ≡ s * i.segment_length + i.segment_length =
                  grind arith in
                inr (h.lane, h.lane_low, (omega (arith, at, here), omega (arith, at, less, next)))
          ]
        ]

  fill_slices-Similar :
      (count s : ℕ) (m m' : Memory)
      → s + count ≤ 4
      → Similar (IsKnown s) m m'
      → Similar (IsKnown (s + count)) (fill_slices i 0 count s m) (fill_slices i 0 count s m')
  unfolding fill_slices
  fill_slices-Similar zero s m m' h similar =
      subst (λ x. Similar (IsKnown x) m m') (omega arith) similar
  fill_slices-Similar (suc count) s m m' h similar =
      let slice : s < 4 = omega (arith, h) in
      let (size, same) = fill_slice-Similar s slice i.lanes m m' (omega arith) similar in
      subst
        (λ x.
          Similar (IsKnown x) (fill_slices i 0 (suc count) s m) (fill_slices i 0 (suc count) s m'))
        (omega arith)
        (fill_slices-Similar count (s + 1) _ _ (omega (arith, h))
          (size, λ k now. same k (known_next s slice k now)))

  split_place :
      (k a l : ℕ) → 1 ≤ l → k < a * l → (k ≡ k / l * l + k % l) × (k % l < l) × (k / l < a)
  split_place k a l pos h = (grind arith, mod-lt k pos, grind arith)

  -- After the first pass of a memory of the right size everything is known.
  all-IsKnown : (k : ℕ) → k < i.memory_blocks → IsKnown 4 k
  all-IsKnown k h =
      let four = layout.four_segments in
      let two_blocks = layout.two_blocks in
      let all = layout.all_lanes in
      let (at, place_low, lane_low) =
        split_place k i.lanes i.lane_length (omega (arith, four, two_blocks))
          (omega (arith, h, all)) in
      record {
        lane = k / i.lane_length;
        place = k % i.lane_length;
        at = at;
        lane_low = lane_low;
        place_low = place_low;
        early = inl (omega (arith, place_low, four));
      }

  memory_determined :
      (m m' : Memory) → length m ≡ i.memory_blocks → Similar (IsKnown 4) m m' → m ≡ m'
  memory_determined m m' n (size, same) = extensional m m' size (λ k.
      elim (lt_or_le k i.memory_blocks) [
        | inl inside ↦ same k (all-IsKnown k inside)
        | inr behind ↦
            get_or-behind m k [] (omega (arith, n, behind))
            ∙ sym (get_or-behind m' k [] (omega (arith, n, size, behind)))
      ])

  module _ (m m' : Memory) (shaped : IsShaped i m) (shaped' : IsShaped i m')
      (same : (lane place : ℕ)
        → lane < i.lanes
        → place < 2
        → block_at m (lane_start i lane + place) ≡ block_at m' (lane_start i lane + place)) where
    first_pass_same : fill_slices i 0 4 0 m ≡ fill_slices i 0 4 0 m'
    first_pass_same =
        let start : Similar (IsKnown 0) m m' = (
          shaped.0 ∙ sym shaped'.0,
          λ k h. elim h.early [
            | inl none ↦ absurd (omega (arith, none))
            | inr two ↦
                subst (λ x. block_at m x ≡ block_at m' x) (sym h.at)
                  (same h.lane h.place h.lane_low two)
          ],
        ) in
        let (size, all) = fill_slices-IsShaped i layout 0 4 0 m (omega arith) shaped in
        memory_determined _ _ size (fill_slices-Similar 4 0 m m' (omega arith) start)

    fill_passes_same : (count : ℕ) → 1 ≤ count → fill_passes i count 0 m ≡ fill_passes i count 0 m'
    unfolding fill_passes
    fill_passes_same zero h = absurd (omega (arith, h))
    fill_passes_same (suc count) h = ap (fill_passes i count 1) first_pass_same

    -- The passes give the same memory for two memories that agree on the first two blocks of each lane:
    -- nothing is used that has not been written before.
    pub fill_memory_blocks_st_determined :
        1 ≤ i.passes → fill_memory_blocks_st i m ≡ fill_memory_blocks_st i m'
    unfolding fill_memory_blocks_st
    fill_memory_blocks_st_determined some_pass = fill_passes_same i.passes some_pass

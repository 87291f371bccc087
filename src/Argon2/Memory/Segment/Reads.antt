-- ===== src/Argon2/Memory/Segment/Reads.antt =====
-- Which blocks a round of `fill_segment` reads.
use security_core.Common.{
  ℕ, ◌+◌, ◌-◌, ◌*◌, ◌≡◌, ◌≤◌, ◌<◌, refl, ◌⊎◌, inl, inr, true, false, ◌==◌, ==_iff, Bool-cases, u64,
  bit_and, arith,
}
use security_core.Argon2.Index.{Instance, Position, index_alpha}
use security_core.Argon2.Index.Layout.{IsLayout}
use security_core.Argon2.Index.Bounds.{segment_offset, index_alpha_same, index_alpha_other}
use security_core.Argon2.Memory.Segment.{reference_lane, reference, rotated}
use security_core.Argon2.Memory.Segment.Place.{
  lane_start, lane_end, At, rotated-lem, IsIndex, reference_lane-lt, reference_lane-first,
}

module _ (i : Instance) (layout : IsLayout i) (p : Position) (lane_p : p.lane < i.lanes)
    (slice_p : p.slice < 4) where
  -- A block that was filled in an earlier slice of the first pass, or before the index in this segment.
  abbrev pub IsEarlier : ℕ → ℕ → ℕ → Type 0
  IsEarlier n lane r = (r < segment_offset i p) ⊎ ((lane ≡ p.lane) × (r < segment_offset i p + n))

  -- A block of the memory; in the first pass one that has been filled.
  pub record IsRead (n k : ℕ) : Type 0 where
    pub lane : ℕ
    pub place : ℕ
    pub at : k ≡ lane_start i lane + place
    pub lane_low : lane < i.lanes
    pub place_low : place < i.lane_length
    pub earlier : (1 ≤ p.pass) ⊎ IsEarlier n lane place

  pub IsRead-lt : {n k : ℕ} → IsRead n k → k < i.memory_blocks
  IsRead-lt h =
      let fits = lane_end i layout h.lane h.lane_low in
      let at = h.at in let low = h.place_low in omega (arith, fits, at, low)

  pub reference-IsRead :
      (n rand : ℕ)
      → IsIndex i layout p lane_p slice_p n
      → IsRead n (reference i (record p { index = n }) rand)
  unfolding reference
  reference-IsRead n rand (h, two) =
      let lane = reference_lane i (record p { index = n }) rand in
      let low = reference_lane-lt i layout p lane_p slice_p n rand in
      let fits = lane_end i layout lane low in
      let cap = layout.memory_fits in
      let wrap : u64 (i.lane_length * lane) ≡ lane_start i lane = omega (arith, fits, cap) in
      elim (Bool-cases (lane == p.lane)) [
        | inl here ↦
            let e = (==_iff lane p.lane).0 here in
            let (inside, _, _, before) =
              index_alpha_same i (record p { index = n }) (bit_and rand 0xffff_ffff) layout
                (record {
                  four_slices = slice_p;
                  in_segment = h;
                  first_slice = λ a b. (two a b, refl);
                }) in
            record {
              lane = lane;
              place = index_alpha i (record p { index = n }) (bit_and rand 0xffff_ffff) true;
              at = rw (wrap, here) refl;
              lane_low = low;
              place_low = inside;
              earlier = elim before [
                | inl later ↦ inl later
                | inr less ↦ inr (inr (e, omega (arith, less)))
              ];
            }
        | inr elsewhere ↦
            let (inside, _, before) =
              index_alpha_other i (record p { index = n }) (bit_and rand 0xffff_ffff) layout
                (record {
                  four_slices = slice_p;
                  in_segment = h;
                  first_slice = λ a b.
                      let e : (lane == p.lane) ≡ true =
                        (==_iff lane p.lane).1
                          (reference_lane-first i layout p lane_p slice_p n rand a b) in
                      cc (e, elsewhere);
                }) in
            record {
              lane = lane;
              place = index_alpha i (record p { index = n }) (bit_and rand 0xffff_ffff) false;
              at = rw (wrap, elsewhere) refl;
              lane_low = low;
              place_low = inside;
              earlier = elim before [ inl later ↦ inl later | inr less ↦ inr (inl less) ];
            }
      ]

  offset_later : 1 ≤ p.slice → i.segment_length ≤ segment_offset i p
  offset_later h = grind (arith, h)

  -- In the first pass the block before has been filled too.
  pub rotated-IsEarlier :
      (n curr prev : ℕ)
      → IsIndex i layout p lane_p slice_p n
      → At i layout p lane_p slice_p n curr prev
      → p.pass ≡ 0
      → (1 ≤ segment_offset i p + n)
        × (rotated i curr prev ≡ lane_start i p.lane + (segment_offset i p + n - 1))
  rotated-IsEarlier n curr prev (h, two) at first =
      let (_, later) = rotated-lem i layout p lane_p slice_p n curr prev h at in
      let place = at.place in
      let two_blocks = layout.two_blocks in
      let pos : 1 ≤ segment_offset i p + n = elim (Bool-cases (p.slice == 0)) [
        | inl e ↦ let z = two first ((==_iff p.slice 0).0 e) in omega (arith, z)
        | inr e ↦
            let more : 1 ≤ p.slice = ground (arith, e) in
            let z = offset_later more in omega (arith, z, two_blocks)
      ] in
      let e = later pos in (pos, omega (arith, e, place, pos))

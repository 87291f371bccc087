-- ===== src/Argon2/Memory/Segment/Place.antt =====
-- The places of the memory that the loop of `fill_segment` reads and writes.
use native.Mathlib.Nat.{add-mul-mod_self_right, mod-eq_of_lt, mod-lt}
use security_core.Common.{
  ℕ, ◌+◌, ◌-◌, ◌*◌, ◌%◌, ◌^◌, ◌≡◌, ◌≢◌, ◌≤◌, ◌<◌, refl, sym, ap, ◌∙◌, ◌⊎◌, inl, inr, true, lt_or_le,
  ◌==◌, ==_iff, Bool-cases, u32, u64, sub32, bit_and, ◌>>>◌, arith,
}
use security_core.Argon2.Index.{Instance, Position}
use security_core.Argon2.Index.Layout.{IsLayout}
use security_core.Argon2.Index.Bounds.{segment_offset, index_alpha_same, index_alpha_other}
use security_core.Argon2.Memory.Segment.{rotated, is_first, reference_lane, reference}

-- The first block of a lane, and the first of the current segment.
abbrev pub lane_start : Instance → ℕ → ℕ
lane_start i lane = lane * i.lane_length

abbrev pub segment_start : Instance → Position → ℕ
segment_start i p = lane_start i p.lane + segment_offset i p

-- Outside the current segment of the position.
abbrev pub IsOutside : Instance → Position → ℕ → Type 0
IsOutside i q k = (k < segment_start i q) ⊎ (segment_start i q + i.segment_length ≤ k)

mul_le : (a b l : ℕ) → a < b → a * l + l ≤ b * l
mul_le a b l h = grind arith

module _ (i : Instance) (layout : IsLayout i) where
  pub lane_end : (lane : ℕ) → lane < i.lanes → lane_start i lane + i.lane_length ≤ i.memory_blocks
  lane_end lane h =
      let e = mul_le lane i.lanes i.lane_length h in
      let all = layout.all_lanes in omega (arith, e, all)

  pub offset_end :
      (p : Position) → p.slice < 4 → segment_offset i p + i.segment_length ≤ i.lane_length
  offset_end p h =
      let e = mul_le p.slice 4 i.segment_length h in
      let four = layout.four_segments in omega (arith, e, four)

  -- A block of another lane is outside the segment.
  pub other_lane :
      (q : Position) (lane r : ℕ)
      → q.slice < 4
      → lane ≢ q.lane
      → r < i.lane_length
      → IsOutside i q (lane_start i lane + r)
  other_lane q lane r s ne h = elim (lt_or_le lane q.lane) [
    | inl less ↦ let e = mul_le lane q.lane i.lane_length less in inl (omega (arith, e))
    | inr more ↦
        let less : q.lane < lane = omega arith in
        let e = mul_le q.lane lane i.lane_length less in
        let f = offset_end q s in inr (omega (arith, e, f))
  ]

  module _ (p : Position) (lane_p : p.lane < i.lanes) (slice_p : p.slice < 4) where
    -- The offsets of the loop at the index `n`.
    pub record At (n curr prev : ℕ) : Type 0 where
      pub place : curr ≡ segment_start i p + n
      pub before_first : segment_offset i p + n ≡ 0 → prev + 1 ≡ lane_start i p.lane + i.lane_length
      pub before : 2 ≤ segment_offset i p + n → prev + 1 ≡ curr

    pub remainder :
        (n : ℕ)
        → segment_offset i p + n < i.lane_length
        → (segment_start i p + n) % i.lane_length ≡ segment_offset i p + n
    remainder n inside =
        let m = segment_offset i p + n in
        let e : segment_start i p + n ≡ m + p.lane * i.lane_length = omega arith in
        ap (λ (t : ℕ). t % i.lane_length) e
        ∙ add-mul-mod_self_right m p.lane i.lane_length
        ∙ mod-eq_of_lt inside

    pub rotated-lem :
        (n curr prev : ℕ)
        → n < i.segment_length
        → At n curr prev
        → (segment_offset i p + n ≡ 0
            → rotated i curr prev + 1 ≡ lane_start i p.lane + i.lane_length)
          × (1 ≤ segment_offset i p + n → rotated i curr prev + 1 ≡ curr)
    rotated-lem n curr prev h at =
        let m = segment_offset i p + n in
        let place = at.place in
        let e : curr % i.lane_length ≡ m =
          ap (λ (t : ℕ). t % i.lane_length) place
          ∙ remainder n (omega (arith, h, offset_end p slice_p)) in
        let fits = lane_end p.lane lane_p in
        let inside = offset_end p slice_p in
        let cap = layout.memory_fits in
        let small : curr < 2 ^ 32 = omega (arith, place, h, fits, inside, cap) in
        elim (Bool-cases (curr % i.lane_length == 1)) [
          | inl one ↦
              let f : m ≡ 1 = sym e ∙ (==_iff (curr % i.lane_length) 1).0 one in
              let back : sub32 curr 1 + 1 ≡ curr = omega (arith, small, place, f) in
              ((λ z. absurd (omega (arith, z, f))), (λ z. rw one back))
          | inr other ↦
              let f : m ≢ 1 = λ z.
                let g : (curr % i.lane_length == 1) ≡ true =
                  (==_iff (curr % i.lane_length) 1).1 (e ∙ z) in
                cc (g, other) in
              (
                (λ z. rw other (at.before_first z)),
                (λ z. rw other (at.before (omega (arith, z, f)))),
              )
        ]

    -- The block before is in the lane.
    pub rotated-in_lane :
        (n curr prev : ℕ)
        → n < i.segment_length
        → At n curr prev
        → (r : ℕ) × (rotated i curr prev ≡ lane_start i p.lane + r) × (r < i.lane_length)
    rotated-in_lane n curr prev h at =
        let m = segment_offset i p + n in
        let (first, later) = rotated-lem n curr prev h at in
        let place = at.place in
        let inside = offset_end p slice_p in
        elim (lt_or_le 0 m) [
          | inl more ↦
              let e = later more in
              (m - 1, omega (arith, e, place, more), omega (arith, more, h, inside))
          | inr none_before ↦
              let e = first (omega (arith, none_before)) in
              (i.lane_length - 1, omega (arith, e, h, inside), omega (arith, h, inside))
        ]

    pub At-next :
        (n curr prev : ℕ)
        → n < i.segment_length
        → At n curr prev
        → At (n + 1) (u32 (curr + 1)) (u32 (rotated i curr prev + 1))
    At-next n curr prev h at =
        let (first, later) = rotated-lem n curr prev h at in
        let place = at.place in
        let fits = lane_end p.lane lane_p in
        let inside = offset_end p slice_p in
        let cap = layout.memory_fits in
        let e : u32 (curr + 1) ≡ curr + 1 = omega (arith, place, h, fits, inside, cap) in
        record {
          place = e ∙ omega (arith, place);
          before_first = λ z. absurd (omega (arith, z));
          before = λ z.
              let f = later (omega (arith, z)) in
              ap (λ (t : ℕ). u32 t + 1) f ∙ omega (arith, place, h, fits, inside, cap);
        }

    -- The first blocks of a lane are there before the first segment is filled.
    abbrev pub IsIndex : ℕ → Type 0
    IsIndex n = (n < i.segment_length) × (p.pass ≡ 0 → p.slice ≡ 0 → 2 ≤ n)

    pub reference_lane-lt : (n rand : ℕ) → reference_lane i (record p { index = n }) rand < i.lanes
    unfolding reference_lane
    reference_lane-lt n rand = elim (Bool-cases (is_first p)) [
      | inl e ↦ rw e lane_p
      | inr e ↦ rw e (mod-lt (rand >>> 32) layout.lanes_pos)
    ]

    -- In the first segment the reference is taken in the same lane.
    pub reference_lane-first :
        (n rand : ℕ)
        → p.pass ≡ 0
        → p.slice ≡ 0
        → reference_lane i (record p { index = n }) rand ≡ p.lane
    unfolding reference_lane
    reference_lane-first n rand a b = rw ((==_iff p.pass 0).1 a, (==_iff p.slice 0).1 b)

    -- The reference is outside the segment that is filled in another lane.
    pub reference-IsOutside :
        (q : Position) (n rand : ℕ)
        → q.slice ≡ p.slice
        → q.lane ≢ p.lane
        → IsIndex n
        → IsOutside i q (reference i (record p { index = n }) rand)
    unfolding reference
    reference-IsOutside q n rand same_slice ne (h, two) =
        let lane = reference_lane i (record p { index = n }) rand in
        let low = reference_lane-lt n rand in
        let fits = lane_end lane low in
        let cap = layout.memory_fits in
        let wrap : u64 (i.lane_length * lane) ≡ lane_start i lane = omega (arith, fits, cap) in
        let slice_q : q.slice < 4 = omega (arith, same_slice, slice_p) in
        elim (Bool-cases (lane == p.lane)) [
          | inl here ↦
              let e = (==_iff lane p.lane).0 here in
              let (inside, _, _, _) =
                index_alpha_same i (record p { index = n }) (bit_and rand 0xffff_ffff) layout
                  (record {
                    four_slices = slice_p;
                    in_segment = h;
                    first_slice = λ a b. (two a b, refl);
                  }) in
              rw (wrap, here) (other_lane q lane _ slice_q (λ z. ne (sym z ∙ e)) inside)
          | inr elsewhere ↦
              let (inside, apart, _) =
                index_alpha_other i (record p { index = n }) (bit_and rand 0xffff_ffff) layout
                  (record {
                    four_slices = slice_p;
                    in_segment = h;
                    first_slice = λ a b.
                        let e : (lane == p.lane) ≡ true =
                          (==_iff lane p.lane).1 (reference_lane-first n rand a b) in
                        cc (e, elsewhere);
                  }) in
              rw (wrap, elsewhere)
                (elim (Bool-cases (lane == q.lane)) [
                  | inl same ↦
                      let f = (==_iff lane q.lane).0 same in
                      let g : lane_start i lane ≡ lane_start i q.lane = ap (lane_start i) f in
                      let off : segment_offset i q ≡ segment_offset i p =
                        ap (λ (t : ℕ). t * i.segment_length) same_slice in
                      elim apart [
                        | inl less ↦ inl (omega (arith, less, g, off))
                        | inr more ↦ inr (omega (arith, more, g, off))
                      ]
                  | inr other ↦
                      other_lane q lane _ slice_q
                        (λ z.
                          let f : (lane == q.lane) ≡ true = (==_iff lane q.lane).1 z in
                          cc (f, other))
                        inside
                ])
        ]

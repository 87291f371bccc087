-- ===== src/Argon2/Memory/Segment/Order.antt =====
-- Two segments of one slice, filled one after the other.
use security_core.Common.{
  ℕ, ◌+◌, ◌-◌, ◌*◌, ◌%◌, ◌≡◌, ◌≢◌, ◌≤◌, ◌<◌, sym, ap, subst, ◌∙◌, ◌⊎◌, inl, inr, true, false,
  length, lt_or_le, ◌==◌, ==_iff, ne→==, Bool-cases, arith,
}
use security_core.Argon2.Index.{Instance, Position}
use security_core.Argon2.Index.Layout.{IsLayout}
use security_core.Argon2.Index.Bounds.{segment_offset}
use security_core.Argon2.Memory.Segment.{
  Memory, block_at, is_first, starting_index, first_offset, previous_offset, fill_segment,
}
use security_core.Argon2.Memory.Segment.Place.{
  segment_start, lane_start, IsOutside, lane_end, offset_end, other_lane, remainder, At,
}
use security_core.Argon2.Memory.Segment.Local.{
  extensional, Agree, fill_loop-length, fill_loop-frame, fill_loop-Agree,
}

pub starting_index-le : (p : Position) → starting_index p ≤ 2
starting_index-le p = elim (Bool-cases (is_first p)) [
  | inl e ↦ rw e (omega arith)
  | inr e ↦ rw e (omega arith)
]

pub is_first-slice : (p : Position) → is_first p ≡ true → p.slice ≡ 0
is_first-slice p e = ground arith

pub starting_index-first : (p : Position) → p.pass ≡ 0 → p.slice ≡ 0 → 2 ≤ starting_index p
starting_index-first p a b = rw ((==_iff p.pass 0).1 a, (==_iff p.slice 0).1 b) (omega arith)

module _ (i : Instance) (layout : IsLayout i) where
  module _ (p : Position) (lane_p : p.lane < i.lanes) (slice_p : p.slice < 4) where
    start_in_lane : segment_offset i p + starting_index p < i.lane_length
    start_in_lane =
        let inside = offset_end i layout p slice_p in
        let two = layout.two_blocks in
        let four = layout.four_segments in
        elim (Bool-cases (is_first p)) [
          | inl e ↦
              let z : p.slice ≡ 0 = is_first-slice p e in
              let off : segment_offset i p ≡ 0 =
                ap (λ (t : ℕ). t * i.segment_length) z ∙ omega arith in
              rw e (omega (arith, off, two, four))
          | inr e ↦ rw e (omega (arith, inside, two))
        ]

    pub At-start :
        At i layout p lane_p slice_p
          (starting_index p)
          (first_offset i p)
          (previous_offset i (first_offset i p))
    At-start =
        let n = starting_index p in
        let low = starting_index-le p in
        let short = start_in_lane in
        let fits = lane_end i layout p.lane lane_p in
        let inside = offset_end i layout p slice_p in
        let cap = layout.memory_fits in
        let m = segment_offset i p + n in
        let curr = first_offset i p in
        let place : curr ≡ segment_start i p + n = omega (arith, fits, inside, cap, short) in
        let e : curr % i.lane_length ≡ m =
          ap (λ (t : ℕ). t % i.lane_length) place ∙ remainder i layout p lane_p slice_p n short in
        record {
          place = place;
          before_first = λ z.
              rw ((==_iff (curr % i.lane_length) 0).1 (e ∙ z))
                (omega (arith, place, z, fits, cap, inside));
          before = λ z.
              let f : (curr % i.lane_length == 0) ≡ false =
                ne→== (curr % i.lane_length) 0 (λ y. omega (arith, y, e, z)) in
              rw f (omega (arith, place, fits, cap, short, z));
        }

    pub room : starting_index p + (i.segment_length - starting_index p) ≤ i.segment_length
    room = let low = starting_index-le p in let two = layout.two_blocks in omega (arith, low, two)

    pub fill_segment-length : (m : Memory) → length (fill_segment i p m) ≡ length m
    unfolding fill_segment
    fill_segment-length m = fill_loop-length i layout p lane_p slice_p _ _ _ _ _ _ m

    -- The filling of a segment changes no block outside this segment.
    pub fill_segment-frame :
        (m : Memory) (k : ℕ) → IsOutside i p k → block_at (fill_segment i p m) k ≡ block_at m k
    unfolding fill_segment
    fill_segment-frame m k out =
        fill_loop-frame i layout p lane_p slice_p _ _ _ _ _ _ m room At-start k out

    fill_segment-Agree :
        (q : Position) (m m' : Memory)
        → q.slice ≡ p.slice
        → q.lane ≢ p.lane
        → Agree i layout q m m'
        → Agree i layout q (fill_segment i p m) (fill_segment i p m')
    unfolding fill_segment
    fill_segment-Agree q m m' same ne agree =
        fill_loop-Agree i layout p lane_p slice_p _ q same ne _ _ _ _ _ m m' room
          (starting_index-first p) At-start agree

  pub segments_apart :
      (p q : Position)
      → p.slice < 4
      → q.slice ≡ p.slice
      → q.lane ≢ p.lane
      → (k : ℕ) → IsOutside i p k ⊎ IsOutside i q k
  segments_apart p q s same ne k = elim (lt_or_le k (segment_start i p)) [
    | inl less ↦ inl (inl less)
    | inr from ↦ elim (lt_or_le k (segment_start i p + i.segment_length)) [
      | inr behind ↦ inl (inr behind)
      | inl inside ↦
          let j = k - lane_start i p.lane in
          let end = offset_end i layout p s in
          let there : lane_start i p.lane + j ≡ k = omega (arith, from) in
          inr (
            subst (IsOutside i q) there (
              other_lane i layout q p.lane j (omega (arith, s, same)) (λ z. ne (sym z))
                (omega (arith, from, inside, end))))
    ]
  ]

  -- The segments of one slice in two lanes can be filled in either order: the memory is the same.
  -- So the threads that fill them do not disturb each other.
  pub fill_segment_comm :
      (p q : Position) (m : Memory)
      → p.lane < i.lanes
      → q.lane < i.lanes
      → p.slice < 4
      → q.slice ≡ p.slice
      → q.lane ≢ p.lane
      → fill_segment i p (fill_segment i q m) ≡ fill_segment i q (fill_segment i p m)
  fill_segment_comm p q m lp lq sp same ne =
      let sq : q.slice < 4 = omega (arith, same, sp) in
      let fp = fill_segment i p m in
      let fq = fill_segment i q m in
      let np = fill_segment-length p lp sp in
      let nq = fill_segment-length q lq sq in
      let one = fill_segment-Agree p lp sp q fq m same ne (nq m, fill_segment-frame q lq sq m) in
      let two =
        fill_segment-Agree q lq sq p fp m (sym same) (λ e. ne (sym e))
          (np m, fill_segment-frame p lp sp m) in
      extensional _ _ (np fq ∙ nq m ∙ sym (nq fp ∙ np m)) (λ k.
        elim (segments_apart p q sp same ne k) [
          | inl out ↦ fill_segment-frame p lp sp fq k out ∙ sym (two.1 k out)
          | inr out ↦ one.1 k out ∙ sym (fill_segment-frame q lq sq fp k out)
        ])

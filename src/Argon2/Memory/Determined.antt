-- ===== src/Argon2/Memory/Determined.antt =====
-- What stands in the memory before the first pass does not matter, but for the first two blocks of
-- each lane.
pub mod Slices
use security_core.Common.{
  ℕ, zero, suc, ◌+◌, ◌-◌, ◌*◌, ◌%◌, ◌≡◌, ◌≢◌, ◌≤◌, ◌<◌, refl, sym, ap, ap₂, subst, ◌∙◌, ◌⊎◌, inl,
  inr, Bool, true, false, [], ◌∷◌, length, length-set, get_or, set, ◌==◌, ==_iff, Bool-cases, not,
  ◌&&◌, lt_or_le, if◌then◌else◌, u32, arith,
}
use security_core.Argon2.Index.{Instance, Position}
use security_core.Argon2.Index.Layout.{IsLayout}
use security_core.Argon2.Index.Bounds.{segment_offset}
use security_core.Argon2.Memory.Block.{Block}
use security_core.Argon2.Memory.Fill.{Addresses, fill_block}
use security_core.Argon2.Memory.Segment.{
  Memory, block_at, rotated, addresses_at, pseudo_random, new_block, fill_loop, fill_segment,
  reference, with_xor, starting_index, is_first,
}
use security_core.Argon2.Memory.Segment.Place.{
  lane_start, segment_start, offset_end, At, At-next, IsIndex,
}
use security_core.Argon2.Memory.Segment.Local.{get_or-set_both}
use security_core.Argon2.Memory.Segment.Reads.{IsEarlier, reference-IsRead, rotated-IsEarlier}
use security_core.Argon2.Memory.Segment.Order.{
  starting_index-le, is_first-slice, starting_index-first, At-start, room,
}

-- Two memories are equal at the places of a set.
abbrev pub Similar : (ℕ → Type 0) → Memory → Memory → Type 0
Similar Q m m' = (length m ≡ length m') × ((k : ℕ) → Q k → block_at m k ≡ block_at m' k)

get_or-set_same :
    (m m' : Memory) (k : ℕ) (b : Block)
    → length m ≡ length m'
    → get_or (set m k b) k [] ≡ get_or (set m' k b) k []
get_or-set_same [] [] k b n = refl
get_or-set_same [] (y ∷ m') k b n = absurd (omega arith)
get_or-set_same (x ∷ m) [] k b n = absurd (omega arith)
get_or-set_same (x ∷ m) (y ∷ m') zero b n = refl
get_or-set_same (x ∷ m) (y ∷ m') (suc k) b n = get_or-set_same m m' k b (omega arith)

-- The same block is written to both.
pub Similar-set :
    (Q R : ℕ → Type 0) (m m' : Memory) (c : ℕ) (b : Block)
    → ((k : ℕ) → R k → k ≢ c → Q k)
    → Similar Q m m'
    → Similar R (set m c b) (set m' c b)
Similar-set Q R m m' c b old (size, same) = (
  length-set m c b ∙ size ∙ sym (length-set m' c b),
  λ k now. elim (Bool-cases (k == c)) [
    | inl e ↦
        subst (λ x. get_or (set m x b) k [] ≡ get_or (set m' x b) k []) ((==_iff k c).0 e)
          (get_or-set_same m m' k b size)
    | inr e ↦
        get_or-set_both m m' k c b size
          (same k (old k now (λ z. let f = (==_iff k c).1 z in cc (e, f))))
  ],
)

module _ (i : Instance) (layout : IsLayout i) (p : Position) (lane_p : p.lane < i.lanes)
    (slice_p : p.slice < 4) (first : p.pass ≡ 0) (Q : ℕ → Type 0)
    (before : (lane place : ℕ)
      → lane < i.lanes
      → place < segment_offset i p
      → Q (lane_start i lane + place)) where
  -- The set, and the blocks of the segment below an index.
  abbrev pub Grown : ℕ → ℕ → Type 0
  Grown n k = Q k ⊎ ((segment_start i p ≤ k) × (k < segment_start i p + n))

  Grown-earlier :
      (n lane place : ℕ)
      → lane < i.lanes
      → IsEarlier i layout p lane_p slice_p n lane place
      → Grown n (lane_start i lane + place)
  Grown-earlier n lane place low (inl less) = inl (before lane place low less)
  Grown-earlier n lane place low (inr (e, less)) = elim (lt_or_le place (segment_offset i p)) [
    | inl earlier ↦ inl (before lane place low earlier)
    | inr here ↦
        subst (λ x. Grown n (lane_start i x + place)) (sym e)
          (inr (omega (arith, here), omega (arith, less)))
  ]

  no_xor : with_xor i p ≡ false
  no_xor = rw first (ground arith)

  new_block-Similar :
      (independent : Bool) (n curr prev : ℕ) (a : Addresses) (m m' : Memory)
      → IsIndex i layout p lane_p slice_p n
      → At i layout p lane_p slice_p n curr prev
      → Similar (Grown n) m m'
      → let back = rotated i curr prev in
        new_block i p n curr back (pseudo_random independent n a m back) m
        ≡ new_block i p n curr back (pseudo_random independent n a m' back) m'
  unfolding new_block fill_block
  new_block-Similar independent n curr prev a m m' index at (size, same) =
      let back = rotated i curr prev in
      let (pos, e) = rotated-IsEarlier i layout p lane_p slice_p n curr prev index at first in
      let e_prev : block_at m back ≡ block_at m' back = same back (
        subst (Grown n) (sym e) (
          Grown-earlier n p.lane (segment_offset i p + n - 1) lane_p
            (inr (refl, omega (arith, pos))))) in
      let rand = pseudo_random independent n a m back in
      let e_rand : rand ≡ pseudo_random independent n a m' back =
        ap (λ b. if independent then get_or a.address (n % 128) 0 else get_or b 0 0) e_prev in
      let read = reference-IsRead i layout p lane_p slice_p n rand index in
      let k = reference i (record p { index = n }) rand in
      let e_ref : block_at m k ≡ block_at m' k = same k (
        subst (Grown n) (sym read.at) (elim read.earlier [
          | inl later ↦ absurd (omega (arith, later, first))
          | inr earlier ↦ Grown-earlier n read.lane read.place read.lane_low earlier
        ])) in
      rw no_xor (
        ap₂ (λ x y. fill_block x y [] false) e_prev e_ref
        ∙ ap
            (λ w.
              fill_block (block_at m' back) (block_at m' (reference i (record p { index = n }) w))
                [] false)
            e_rand)

  fill_loop-Similar :
      (independent : Bool) (left n curr prev : ℕ) (a : Addresses) (m m' : Memory)
      → n + left ≤ i.segment_length
      → (p.pass ≡ 0 → p.slice ≡ 0 → 2 ≤ n)
      → At i layout p lane_p slice_p n curr prev
      → Similar (Grown n) m m'
      → Similar
          (Grown (n + left))
          (fill_loop i p independent left n curr prev a m)
          (fill_loop i p independent left n curr prev a m')
  unfolding fill_loop
  fill_loop-Similar independent zero n curr prev a m m' h two at similar =
      subst (λ x. Similar (Grown x) m m') (omega arith) similar
  fill_loop-Similar independent (suc left) n curr prev a m m' h two at similar =
      let a' = addresses_at independent n a in
      let back = rotated i curr prev in
      let b = new_block i p n curr back (pseudo_random independent n a' m back) m in
      let b' = new_block i p n curr back (pseudo_random independent n a' m' back) m' in
      let same : b ≡ b' =
        new_block-Similar independent n curr prev a' m m' (omega (arith, h), two) at similar in
      let place = at.place in
      let old : (k : ℕ) → Grown (n + 1) k → k ≢ curr → Grown n k = λ k now ne. elim now [
        | inl q ↦ inl q
        | inr (from, below) ↦ inr (from, omega (arith, below, place, from, ne))
      ] in
      let next : Similar (Grown (n + 1)) (set m curr b) (set m' curr b') =
        subst (λ t. Similar (Grown (n + 1)) (set m curr b) (set m' curr t)) same
          (Similar-set (Grown n) (Grown (n + 1)) m m' curr b old similar) in
      subst
        (λ x.
          Similar (Grown x) (fill_loop i p independent (suc left) n curr prev a m)
            (fill_loop i p independent (suc left) n curr prev a m'))
        (omega arith)
        (fill_loop-Similar independent left (n + 1) (u32 (curr + 1)) (u32 (back + 1)) a'
          (set m curr b) (set m' curr b') (omega (arith, h))
          (λ x y. let z = two x y in omega (arith, z))
          (At-next i layout p lane_p slice_p n curr prev (omega (arith, h)) at) next)

  -- A segment of the first pass: if the memories agree on what is filled, they do so after it.
  pub fill_segment-Similar :
      (m m' : Memory)
      → (p.slice ≡ 0 → (k : ℕ) → lane_start i p.lane ≤ k → k < lane_start i p.lane + 2 → Q k)
      → Similar Q m m'
      → Similar (Grown i.segment_length) (fill_segment i p m) (fill_segment i p m')
  unfolding fill_segment
  fill_segment-Similar m m' two (size, same) =
      let n = starting_index p in
      let low = starting_index-le p in
      let two_blocks = layout.two_blocks in
      let start : Similar (Grown n) m m' = (
        size,
        λ k now. same k (elim now [
          | inl q ↦ q
          | inr (from, below) ↦ elim (Bool-cases (is_first p)) [
            | inl e ↦
                let z = is_first-slice p e in
                let off : segment_offset i p ≡ 0 =
                  ap (λ (t : ℕ). t * i.segment_length) z ∙ omega arith in
                two z k (omega (arith, from, off)) (omega (arith, below, off, low))
            | inr e ↦
                let none : starting_index p ≡ 0 = rw e refl in
                absurd (omega (arith, from, below, none))
          ]
        ]),
      ) in
      subst (λ x. Similar (Grown x) (fill_segment i p m) (fill_segment i p m'))
        (omega (arith, low, two_blocks))
        (fill_loop-Similar _ (i.segment_length - n) n _ _ _ m m' (room i layout p lane_p slice_p)
          (starting_index-first p) (At-start i layout p lane_p slice_p) start)

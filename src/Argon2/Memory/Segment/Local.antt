-- ===== src/Argon2/Memory/Segment/Local.antt =====
-- The blocks that the loop of `fill_segment` changes, and the blocks that it depends on.
use security_core.Common.{
  ℕ, zero, suc, ◌+◌, ◌≡◌, ◌≢◌, ◌≤◌, ◌<◌, refl, sym, ap, ap₂, subst, ◌∙◌, inl, inr, Bool, [], ◌∷◌,
  length, length-set, get_or, set, u32, ◌%◌, if◌then◌else◌, arith,
}
use security_core.Argon2.Index.{Instance, Position}
use security_core.Argon2.Index.Layout.{IsLayout}
use security_core.Argon2.Index.Bounds.{segment_offset}
use security_core.Argon2.Memory.Block.{Block}
use security_core.Argon2.Memory.Fill.{Addresses, fill_block}
use security_core.Argon2.Memory.Segment.{
  Memory, block_at, rotated, addresses_at, pseudo_random, new_block, fill_loop, reference, with_xor,
}
use security_core.Argon2.Memory.Segment.Place.{
  lane_start, IsOutside, offset_end, other_lane, At, At-next, rotated-in_lane, IsIndex,
  reference-IsOutside,
}

-- A write elsewhere does not change what is read.
pub get_or-set :
    (m : Memory) (k j : ℕ) (b : Block) → k ≢ j → get_or (set m j b) k [] ≡ get_or m k []
get_or-set [] k j b ne = refl
get_or-set (x ∷ m) zero zero b ne = absurd (ne refl)
get_or-set (x ∷ m) (suc k) zero b ne = refl
get_or-set (x ∷ m) zero (suc j) b ne = refl
get_or-set (x ∷ m) (suc k) (suc j) b ne = get_or-set m k j b (λ e. ne (ap suc e))

-- The same write keeps two memories equal at a place.
pub get_or-set_both :
    (m m' : Memory) (k j : ℕ) (b : Block)
    → length m ≡ length m'
    → get_or m k [] ≡ get_or m' k []
    → get_or (set m j b) k [] ≡ get_or (set m' j b) k []
get_or-set_both [] [] k j b n e = refl
get_or-set_both [] (y ∷ m') k j b n e = absurd (omega arith)
get_or-set_both (x ∷ m) [] k j b n e = absurd (omega arith)
get_or-set_both (x ∷ m) (y ∷ m') zero zero b n e = refl
get_or-set_both (x ∷ m) (y ∷ m') zero (suc j) b n e = e
get_or-set_both (x ∷ m) (y ∷ m') (suc k) zero b n e = e
get_or-set_both (x ∷ m) (y ∷ m') (suc k) (suc j) b n e = get_or-set_both m m' k j b (omega arith) e

-- Memories of one length that are equal at each place are equal.
pub extensional :
    (m m' : Memory) → length m ≡ length m' → ((k : ℕ) → get_or m k [] ≡ get_or m' k []) → m ≡ m'
extensional [] [] n e = refl
extensional [] (y ∷ m') n e = absurd (omega arith)
extensional (x ∷ m) [] n e = absurd (omega arith)
extensional (x ∷ m) (y ∷ m') n e =
    ap₂ (λ (a : Block) (b : Memory). a ∷ b) (e 0) (extensional m m' (omega arith) (λ k. e (suc k)))

module _ (i : Instance) (layout : IsLayout i) where
  -- Equal but for the current segment of the position `q`.
  abbrev pub Agree : Position → Memory → Memory → Type 0
  Agree q m m' = (length m ≡ length m') × ((k : ℕ) → IsOutside i q k → block_at m k ≡ block_at m' k)

  module _ (p : Position) (lane_p : p.lane < i.lanes) (slice_p : p.slice < 4)
      (independent : Bool) where
    pub fill_loop-length :
        (left n curr prev : ℕ) (a : Addresses) (m : Memory)
        → length (fill_loop i p independent left n curr prev a m) ≡ length m
    unfolding fill_loop
    fill_loop-length zero n curr prev a m = refl
    fill_loop-length (suc left) n curr prev a m =
        fill_loop-length left _ _ _ _ _ ∙ length-set m curr _

    pub fill_loop-frame :
        (left n curr prev : ℕ) (a : Addresses) (m : Memory)
        → n + left ≤ i.segment_length
        → At i layout p lane_p slice_p n curr prev
        → (k : ℕ) → IsOutside i p k
        → block_at (fill_loop i p independent left n curr prev a m) k ≡ block_at m k
    unfolding fill_loop
    fill_loop-frame zero n curr prev a m h at k out = refl
    fill_loop-frame (suc left) n curr prev a m h at k out =
        let place = at.place in
        let ne : k ≢ curr = λ e. elim out [
          | inl less ↦ absurd (omega (arith, less, e, place))
          | inr more ↦ absurd (omega (arith, more, e, place, h))
        ] in
        fill_loop-frame left (n + 1) _ _ _ _ (omega arith)
          (At-next i layout p lane_p slice_p n curr prev (omega arith) at) k out
        ∙ get_or-set m k curr _ ne

    module _ (q : Position) (same_slice : q.slice ≡ p.slice) (ne : q.lane ≢ p.lane) where
      -- What a round reads is outside the segment, so the new block is the same.
      new_block-Agree :
          (n curr prev : ℕ) (a : Addresses) (m m' : Memory)
          → IsIndex i layout p lane_p slice_p n
          → At i layout p lane_p slice_p n curr prev
          → Agree q m m'
          → let back = rotated i curr prev in
            new_block i p n curr back (pseudo_random independent n a m back) m
            ≡ new_block i p n curr back (pseudo_random independent n a m' back) m'
      unfolding new_block
      new_block-Agree n curr prev a m m' index at agree =
          let slice_q : q.slice < 4 = omega (arith, same_slice, slice_p) in
          let back = rotated i curr prev in
          let (r, e, inside) = rotated-in_lane i layout p lane_p slice_p n curr prev index.0 at in
          let place = at.place in
          let bound = offset_end i layout p slice_p in
          let small = index.0 in
          let own : (k j : ℕ)
              → k ≡ lane_start i p.lane + j
              → j < i.lane_length
              → block_at m k ≡ block_at m' k =
            λ k j h low. agree.1 k (
              subst (IsOutside i q) (sym h)
                (other_lane i layout q p.lane j slice_q (λ z. ne (sym z)) low)) in
          let e_prev = own back r e inside in
          let e_curr =
            own curr (segment_offset i p + n) (omega (arith, place))
              (omega (arith, bound, small)) in
          let rand = pseudo_random independent n a m back in
          let e_rand : rand ≡ pseudo_random independent n a m' back =
            ap (λ b. if independent then get_or a.address (n % 128) 0 else get_or b 0 0) e_prev in
          let e_ref =
            agree.1 (reference i (record p { index = n }) rand)
              (reference-IsOutside i layout p lane_p slice_p q n rand same_slice ne index) in
          ap₂ (λ x y. fill_block x y (block_at m curr) (with_xor i p)) e_prev e_ref
          ∙ ap
              (λ z.
                fill_block (block_at m' back)
                  (block_at m' (reference i (record p { index = n }) rand)) z (with_xor i p))
              e_curr
          ∙ ap
              (λ w.
                fill_block (block_at m' back) (block_at m' (reference i (record p { index = n }) w))
                  (block_at m' curr) (with_xor i p))
              e_rand

      pub fill_loop-Agree :
          (left n curr prev : ℕ) (a : Addresses) (m m' : Memory)
          → n + left ≤ i.segment_length
          → (p.pass ≡ 0 → p.slice ≡ 0 → 2 ≤ n)
          → At i layout p lane_p slice_p n curr prev
          → Agree q m m'
          → Agree q
              (fill_loop i p independent left n curr prev a m)
              (fill_loop i p independent left n curr prev a m')
      unfolding fill_loop
      fill_loop-Agree zero n curr prev a m m' h two at agree = agree
      fill_loop-Agree (suc left) n curr prev a m m' h two at agree =
          let a' = addresses_at independent n a in
          let back = rotated i curr prev in
          let b = new_block i p n curr back (pseudo_random independent n a' m back) m in
          let b' = new_block i p n curr back (pseudo_random independent n a' m' back) m' in
          let same : b ≡ b' = new_block-Agree n curr prev a' m m' (omega arith, two) at agree in
          fill_loop-Agree left (n + 1) (u32 (curr + 1)) (u32 (back + 1)) a' (set m curr b)
            (set m' curr b') (omega arith) (λ x y. let z = two x y in omega (arith, z))
            (At-next i layout p lane_p slice_p n curr prev (omega arith) at)
            (
              length-set m curr b ∙ agree.0 ∙ sym (length-set m' curr b'),
              λ k out.
                  get_or-set_both m m' k curr b agree.0 (agree.1 k out)
                  ∙ ap (λ t. get_or (set m' curr t) k []) same,
            )

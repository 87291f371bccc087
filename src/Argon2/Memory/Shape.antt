-- ===== src/Argon2/Memory/Shape.antt =====
-- The shape of the memory: as many blocks as the instance says, each of 128 words.
use security_core.Common.{
  ℕ, zero, suc, ◌+◌, ◌≡◌, ◌≤◌, ◌<◌, ◌∙◌, Bool, List, [], ◌∷◌, All, length, length-set, get_or, set,
  arith,
}
use security_core.Argon2.Index.{Instance, Position}
use security_core.Argon2.Index.Layout.{IsLayout}
use security_core.Argon2.Memory.Block.{Block}
use security_core.Argon2.Memory.Fill.{Addresses, length-fill_block}
use security_core.Argon2.Memory.Segment.{
  Memory, block_at, rotated, addresses_at, pseudo_random, new_block, fill_loop, fill_segment,
  reference,
}
use security_core.Argon2.Memory.Segment.Reads.{IsRead-lt, reference-IsRead}
use security_core.Argon2.Memory.Segment.Order.{starting_index-first, room}
use security_core.Argon2.Memory.Passes.{
  start_of, lanes_to, fill_slice, fill_slices, fill_passes, fill_memory_blocks_st,
}

abbrev pub IsShaped : Instance → Memory → Type 0
IsShaped i m = (length m ≡ i.memory_blocks) × All (λ b. length b ≡ 128) m

pub All-get_or {ℓ κ} :
    {A : Type ℓ} (P : A → Type κ) (xs : List A) (k : ℕ) (d : A)
    → k < length xs
    → All P xs
    → P (get_or xs k d)
All-get_or P [] k d h all = absurd (omega (arith, h))
All-get_or P (x ∷ xs) zero d h all = all.0
All-get_or P (x ∷ xs) (suc k) d h all = All-get_or P xs k d (omega (arith, h)) all.1

All-set {ℓ κ} :
    {A : Type ℓ} (P : A → Type κ) (xs : List A) (k : ℕ) (x : A)
    → P x
    → All P xs
    → All P (set xs k x)
All-set P [] k x px all = tt
All-set P (y ∷ xs) zero x px all = (px, all.1)
All-set P (y ∷ xs) (suc k) x px all = (all.0, All-set P xs k x px all.1)

module _ (i : Instance) (layout : IsLayout i) where
  -- A block of 128 words is written.
  pub IsShaped-set :
      (m : Memory) (k : ℕ) (b : Block) → length b ≡ 128 → IsShaped i m → IsShaped i (set m k b)
  IsShaped-set m k b n (size, all) = (length-set m k b ∙ size, All-set _ m k b n all)

  pub block_at-IsShaped :
      (m : Memory) (k : ℕ) → IsShaped i m → k < i.memory_blocks → length (block_at m k) ≡ 128
  block_at-IsShaped m k (size, all) h = All-get_or _ m k [] (omega (arith, size, h)) all

  module _ (p : Position) (lane_p : p.lane < i.lanes) (slice_p : p.slice < 4)
      (independent : Bool) where
    fill_loop-IsShaped :
        (left n curr prev : ℕ) (a : Addresses) (m : Memory)
        → n + left ≤ i.segment_length
        → (p.pass ≡ 0 → p.slice ≡ 0 → 2 ≤ n)
        → IsShaped i m
        → IsShaped i (fill_loop i p independent left n curr prev a m)
    unfolding fill_loop new_block
    fill_loop-IsShaped zero n curr prev a m h two shaped = shaped
    fill_loop-IsShaped (suc left) n curr prev a m h two shaped =
        let at = rotated i curr prev in
        let a' = addresses_at independent n a in
        let rand = pseudo_random independent n a' m at in
        let k = reference i (record p { index = n }) rand in
        let read = reference-IsRead i layout p lane_p slice_p n rand (omega (arith, h), two) in
        let low = IsRead-lt i layout p lane_p slice_p read in
        let full : length (new_block i p n curr at rand m) ≡ 128 =
          length-fill_block (block_at m at) (block_at m k) (block_at m curr) _
          ∙ block_at-IsShaped m k shaped low in
        fill_loop-IsShaped left (n + 1) _ _ _ _ (omega (arith, h))
          (λ x y. let z = two x y in omega (arith, z))
          (IsShaped-set m curr (new_block i p n curr at rand m) full shaped)

  pub fill_segment-IsShaped :
      (p : Position) (m : Memory)
      → p.lane < i.lanes
      → p.slice < 4
      → IsShaped i m
      → IsShaped i (fill_segment i p m)
  unfolding fill_segment
  fill_segment-IsShaped p m lane slice shaped =
      fill_loop-IsShaped p lane slice _ _ _ _ _ _ m (room i layout p lane slice)
        (starting_index-first p) shaped

  fill_slice-IsShaped :
      (r s : ℕ) (lanes : List ℕ) (m : Memory)
      → s < 4
      → All (λ l. l < i.lanes) lanes
      → IsShaped i m
      → IsShaped i (fill_slice i r s lanes m)
  unfolding fill_slice
  fill_slice-IsShaped r s [] m slice h shaped = shaped
  fill_slice-IsShaped r s (l ∷ lanes) m slice (low, h) shaped =
      fill_slice-IsShaped r s lanes _ slice h
        (fill_segment-IsShaped (start_of r s l) m low slice shaped)

  lanes_to-low :
      (n : ℕ) (rest : List ℕ)
      → n ≤ i.lanes
      → All (λ l. l < i.lanes) rest
      → All (λ l. l < i.lanes) (lanes_to n rest)
  lanes_to-low zero rest h all = all
  lanes_to-low (suc n) rest h all =
      lanes_to-low n (n ∷ rest) (omega (arith, h)) (omega (arith, h), all)

  pub fill_slices-IsShaped :
      (r count s : ℕ) (m : Memory)
      → s + count ≤ 4
      → IsShaped i m
      → IsShaped i (fill_slices i r count s m)
  unfolding fill_slices
  fill_slices-IsShaped r zero s m h shaped = shaped
  fill_slices-IsShaped r (suc count) s m h shaped =
      fill_slices-IsShaped r count (s + 1) _ (omega (arith, h)) (
        fill_slice-IsShaped r s (lanes_to i.lanes []) m (omega (arith, h))
          (lanes_to-low i.lanes [] (omega arith) tt) shaped)

  fill_passes-IsShaped :
      (count r : ℕ) (m : Memory) → IsShaped i m → IsShaped i (fill_passes i count r m)
  unfolding fill_passes
  fill_passes-IsShaped zero r m shaped = shaped
  fill_passes-IsShaped (suc count) r m shaped =
      fill_passes-IsShaped count (r + 1) _ (fill_slices-IsShaped r 4 0 m (omega arith) shaped)

  -- The passes keep the shape of the memory: every block that they write has 128 words, since every
  -- block that they refer to lies in the memory.
  pub fill_memory_blocks_st-IsShaped :
      (m : Memory) → IsShaped i m → IsShaped i (fill_memory_blocks_st i m)
  unfolding fill_memory_blocks_st
  fill_memory_blocks_st-IsShaped m shaped = fill_passes-IsShaped i.passes 0 m shaped

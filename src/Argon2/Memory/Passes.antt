-- ===== src/Argon2/Memory/Passes.antt =====
-- `fill_memory_blocks_st` of core.c, and the order of the lanes in a slice.
use security_core.Common.{ℕ, zero, suc, ◌+◌, ◌≡◌, ◌≢◌, ◌<◌, refl, ap, ◌∙◌, List, [], ◌∷◌, All}
use security_core.Argon2.Types
use security_core.Argon2.Index.{Instance, Position}
use security_core.Argon2.Index.Layout.{IsLayout}
use security_core.Argon2.Memory.Segment.{Memory, fill_segment}
use security_core.Argon2.Memory.Segment.Order.{fill_segment_comm}

-- The position {r, l, s, 0}.
abbrev pub start_of : ℕ → ℕ → ℕ → Position
start_of r s l = record { pass = r; lane = l; slice = s; index = 0 }

-- The lanes 0, ..., n - 1 in this order, before those that follow.
abbrev pub lanes_to : ℕ → List ℕ → List ℕ
lanes_to zero rest = rest
lanes_to (suc n) rest = lanes_to n (n ∷ rest)

-- The segments of a slice, in the order of the lanes that are listed.
unfoldable pub fill_slice : Instance → ℕ → ℕ → List ℕ → Memory → Memory
fill_slice i r s [] memory = memory
fill_slice i r s (l ∷ lanes) memory =
    fill_slice i r s lanes (fill_segment i (start_of r s l) memory)

-- `count` slices from `s` on, and `count` passes from `r` on.
unfoldable pub fill_slices : Instance → ℕ → ℕ → ℕ → Memory → Memory
fill_slices i r zero s memory = memory
fill_slices i r (suc count) s memory =
    fill_slices i r count (s + 1) (fill_slice i r s (lanes_to i.lanes []) memory)

unfoldable pub fill_passes : Instance → ℕ → ℕ → Memory → Memory
fill_passes i zero r memory = memory
fill_passes i (suc count) r memory =
    fill_passes i count (r + 1) (fill_slices i r Types.sync_points 0 memory)

unfoldable pub fill_memory_blocks_st : Instance → Memory → Memory
fill_memory_blocks_st i memory = fill_passes i i.passes 0 memory

-- The second list has the lanes of the first one in another order, by exchanges of neighbours that
-- are different lanes.
pub data Reordered : List ℕ → List ℕ → Type 0 where
  same : (lanes : List ℕ) → Reordered lanes lanes
  exchange : (a b : ℕ) (lanes : List ℕ) → a ≢ b → Reordered (a ∷ b ∷ lanes) (b ∷ a ∷ lanes)
  behind : (a : ℕ) {xs ys : List ℕ} → Reordered xs ys → Reordered (a ∷ xs) (a ∷ ys)
  twice : {xs ys zs : List ℕ} → Reordered xs ys → Reordered ys zs → Reordered xs zs

module _ (i : Instance) (layout : IsLayout i) (r s : ℕ) (slice : s < 4) where
  abbrev AreLanes : List ℕ → Type 0
  AreLanes = All (λ l. l < i.lanes)

  Reordered-AreLanes : {xs ys : List ℕ} → Reordered xs ys → AreLanes xs → AreLanes ys
  Reordered-AreLanes (same lanes) h = h
  Reordered-AreLanes (exchange a b lanes ne) h = (h.1.0, (h.0, h.1.1))
  Reordered-AreLanes (behind a o) h = (h.0, Reordered-AreLanes o h.1)
  Reordered-AreLanes (twice o o') h = Reordered-AreLanes o' (Reordered-AreLanes o h)

  -- The memory after a slice does not depend on the order in which its lanes are filled.
  fill_slice-Reordered :
      {xs ys : List ℕ} (memory : Memory)
      → Reordered xs ys
      → AreLanes xs
      → fill_slice i r s xs memory ≡ fill_slice i r s ys memory
  unfolding fill_slice
  fill_slice-Reordered memory (same lanes) h = refl
  fill_slice-Reordered memory (exchange a b lanes ne) h =
      ap (fill_slice i r s lanes) (
        fill_segment_comm i layout (start_of r s b) (start_of r s a) memory h.1.0 h.0 slice refl ne)
  fill_slice-Reordered memory (behind a o) h =
      fill_slice-Reordered (fill_segment i (start_of r s a) memory) o h.1
  fill_slice-Reordered memory (twice o o') h =
      fill_slice-Reordered memory o h ∙ fill_slice-Reordered memory o' (Reordered-AreLanes o h)

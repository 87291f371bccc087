-- ===== src/Argon2/Index/Bounds.antt =====
-- Where the block that `index_alpha` chooses lies in its lane.
use security_core.Common.{
  ℕ, ◌+◌, ◌-◌, ◌*◌, ◌/◌, ◌%◌, ◌^◌, ◌≤◌, ◌<◌, ◌≡◌, ◌≢◌, refl, ap, ◌⊎◌, inl, inr, Bool, true, false,
  arith, u64, lt_or_le,
}
use native.Mathlib.Nat.{mod-eq_of_lt, mod-eq-sub-mod}
use security_core.Argon2.Index.{
  Instance, Position, reference_area_size, relative_position, start_position, index_alpha,
}
use security_core.Argon2.Index.Layout.{IsLayout}

mul_mono : (a x k : ℕ) → x ≤ k → a * x ≤ a * k
mul_mono a x k h = grind arith

scaled-lt : (area x : ℕ) → 0 < area → x < 2 ^ 32 → area * x / 2 ^ 32 < area
scaled-lt area x pos h = omega (arith, mul_mono area x (2 ^ 32 - 1) (omega arith))

squared-lt : (r : ℕ) → u64 (r * r) / 2 ^ 32 < 2 ^ 32
squared-lt r = omega arith

-- The mapping of a 32-bit number into the area.
pub relative_position-lt :
    (area pseudo_rand : ℕ) → 0 < area → area < 2 ^ 32 → relative_position area pseudo_rand < area
unfolding relative_position
relative_position-lt area r pos fits =
    let x = u64 (r * r) / 2 ^ 32 in
    let small : area * x < 2 ^ 64 =
      omega (arith, mul_mono area x (2 ^ 32 - 1) (omega (arith, squared-lt r))) in
    omega (arith, scaled-lt area x pos (squared-lt r), small)

mod_once : (x m : ℕ) → x < 2 * m → ((x < m) × (x % m ≡ x)) ⊎ ((m ≤ x) × (x % m + m ≡ x))
mod_once x m h = elim (lt_or_le x m) [
  | inl less ↦ inl (less, mod-eq_of_lt less)
  | inr more ↦ inr (more, omega (arith, mod-eq-sub-mod more, mod-eq_of_lt (rest more)))
]
  where
    rest : m ≤ x → x - m < m
    rest more = omega arith

-- The offset of the current segment in its lane.
abbrev pub segment_offset : Instance → Position → ℕ
segment_offset i p = p.slice * i.segment_length

-- A position that `fill_segment` asks for: the first two blocks of a lane are there already, and
-- in the first slice the reference is taken in the same lane.
pub record IsPosition (i : Instance) (p : Position) (same_lane : Bool) : Type 0 where
  pub four_slices : p.slice < 4
  pub in_segment : p.index < i.segment_length
  pub first_slice : p.pass ≡ 0 → p.slice ≡ 0 → (2 ≤ p.index) × (same_lane ≡ true)

module _ (i : Instance) (layout : IsLayout i) (p : Position) (rand : ℕ) (same : Bool)
    (at : IsPosition i p same) where
  abbrev off : ℕ
  off = segment_offset i p

  abbrev seg : ℕ
  seg = i.segment_length

  offset_first : p.slice ≡ 0 → off ≡ 0
  offset_first e = rw e (omega arith)

  offset_last : p.slice ≡ 3 → off ≡ 3 * seg
  offset_last e = ap (λ (t : ℕ). t * seg) e

  offset_later : p.slice ≢ 0 → seg ≤ off
  offset_later h = omega (arith, mul_mono seg 1 p.slice (omega arith))

  offset_earlier : p.slice ≢ 3 → off + 2 * seg ≤ 4 * seg
  offset_earlier h = omega (arith, mul_mono seg p.slice 2 (omega arith))

  offset_any : off + seg ≤ 4 * seg
  offset_any = omega (arith, mul_mono seg p.slice 3 (omega arith))

  -- The size of the area on every branch.
  area_first :
      p.pass ≡ 0
      → ((same ≡ true) × (reference_area_size i p same ≡ off + p.index - 1) × (2 ≤ off + p.index))
        ⊎ ((same ≡ false)
            × (0 < reference_area_size i p same)
            × (reference_area_size i p same ≤ off))
  unfolding reference_area_size
  area_first first = ground (arith, offset_first, offset_later, offset_any)

  area_later :
      p.pass ≢ 0
      → ((same ≡ true) × (reference_area_size i p same ≡ 3 * seg + p.index - 1))
        ⊎ ((same ≡ false)
            × (0 < reference_area_size i p same)
            × (reference_area_size i p same ≤ 3 * seg))
  unfolding reference_area_size
  area_later later = ground arith

  start_cases :
      ((p.pass ≡ 0) × (start_position i p ≡ 0))
      ⊎ ((p.pass ≢ 0) × (p.slice ≡ 3) × (start_position i p ≡ 0))
      ⊎ ((p.pass ≢ 0) × (p.slice ≢ 3) × (start_position i p ≡ off + seg))
  unfolding start_position
  start_cases = ground (arith, offset_earlier)

  -- `start + relative` passes the end of the lane at most once.
  index_alpha_cases :
      (area start : ℕ)
      → reference_area_size i p same ≡ area
      → start_position i p ≡ start
      → 0 < area
      → area ≤ 4 * seg
      → start < 4 * seg
      → (relative : ℕ) × (relative < area)
        × (((start + relative < 4 * seg) × (index_alpha i p rand same ≡ start + relative))
            ⊎ ((4 * seg ≤ start + relative)
                × (index_alpha i p rand same + 4 * seg ≡ start + relative)))
  unfolding index_alpha
  index_alpha_cases area start ea es pos fits low = (
    relative_position area rand,
    relative_position-lt area rand pos (omega arith),
    rw (ea, es)
        (ground (
          arith,
          layout.four_segments,
          relative_position-lt area rand pos (omega arith),
          mod_once (start + relative_position area rand) (4 * seg),
        )),
  )

  area_pos : (0 < reference_area_size i p same) × (reference_area_size i p same ≤ 4 * seg)
  area_pos = elim (lt_or_le 0 p.pass) [
    | inl later ↦ grind (arith, area_later)
    | inr first ↦ grind (arith, area_first, offset_any)
  ]

  start_fits : start_position i p < 4 * seg
  start_fits = grind (arith, start_cases, offset_earlier)

-- Another lane: the block lies in the lane and outside the segment that this lane is being
-- filled in, so a thread reads nothing that another thread writes; in the first pass it
-- belongs to a finished segment.
pub index_alpha_other :
    (i : Instance) (p : Position) (rand : ℕ)
    → IsLayout i
    → IsPosition i p false
    → let r = index_alpha i p rand false in
      (r < i.lane_length)
      × ((r < segment_offset i p) ⊎ (segment_offset i p + i.segment_length ≤ r))
      × ((1 ≤ p.pass) ⊎ (r < segment_offset i p))
index_alpha_other i p rand layout at =
    let (area_positive, area_small) = area_pos i layout p rand false at in
    let (relative, below, cases) =
      index_alpha_cases i layout p rand false at _ _ refl refl area_positive area_small
        (start_fits i layout p rand false at) in
    ground (
      arith,
      start_cases i layout p rand false at,
      area_first i layout p rand false at,
      area_later i layout p rand false at,
      offset_last i layout p rand false at,
      offset_later i layout p rand false at,
      offset_first i layout p rand false at,
      offset_earlier i layout p rand false at,
      offset_any i layout p rand false at,
    )

-- The same lane: the block lies in the lane, and it is neither the current block, nor the one
-- before it, nor one of this segment that is still to be filled; in the first pass it has been
-- filled before.
pub index_alpha_same :
    (i : Instance) (p : Position) (rand : ℕ)
    → IsLayout i
    → IsPosition i p true
    → let r = index_alpha i p rand true in
      (r < i.lane_length)
      × ((r + 1 < segment_offset i p + p.index) ⊎ (segment_offset i p + i.segment_length ≤ r))
      × ((1 ≤ segment_offset i p + p.index) ⊎ (r + 1 < i.lane_length))
      × ((1 ≤ p.pass) ⊎ (r + 1 < segment_offset i p + p.index))
index_alpha_same i p rand layout at =
    let (area_positive, area_small) = area_pos i layout p rand true at in
    let (relative, below, cases) =
      index_alpha_cases i layout p rand true at _ _ refl refl area_positive area_small
        (start_fits i layout p rand true at) in
    ground (
      arith,
      start_cases i layout p rand true at,
      area_first i layout p rand true at,
      area_later i layout p rand true at,
      offset_last i layout p rand true at,
      offset_later i layout p rand true at,
      offset_first i layout p rand true at,
      offset_earlier i layout p rand true at,
      offset_any i layout p rand true at,
    )

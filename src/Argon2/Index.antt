-- ===== src/Argon2/Index.antt =====
-- Which block is referenced: `index_alpha` of Sources/CArgon2/core.c, with the types
-- `argon2_instance_t` and `argon2_position_t` of core.h and the memory layout that `argon2_ctx`
-- of argon2.c computes. Every `uint32_t` and `uint64_t` operation wraps as in C.
pub mod Layout
pub mod Bounds
mod Tests
use security_core.Common.{
  ℕ, ◌+◌, ◌-◌, ◌*◌, ◌/◌, ◌%◌, ◌^◌, Bool, ltb, ◌==◌, if◌then◌else◌, u32, u64, sub32, sub64, ◌>>>◌,
}
use security_core.Argon2.Types
use security_core.Argon2.Types.{Context, Argon2Type}

-- The numbers of an instance; its memory is an argument of the functions that use it.
pub record Instance : Type 0 where
  pub version : ℕ
  pub passes : ℕ
  pub memory_blocks : ℕ
  pub segment_length : ℕ
  pub lane_length : ℕ
  pub lanes : ℕ
  pub threads : ℕ
  pub type : Argon2Type

pub record Position : Type 0 where
  pub pass : ℕ
  pub lane : ℕ
  pub slice : ℕ
  pub index : ℕ

-- Step 2 of `argon2_ctx`: the memory is aligned to segments of equal length.
unfoldable pub make_instance : Context → Argon2Type → Instance
make_instance c type =
    let least = u32 (u32 (2 * Types.sync_points) * c.lanes) in
    let wanted = if ltb c.m_cost least then least else c.m_cost in
    let segment_length = wanted / u32 (c.lanes * Types.sync_points) in
    record {
      version = c.version;
      passes = c.t_cost;
      memory_blocks = u32 (segment_length * u32 (c.lanes * Types.sync_points));
      segment_length = segment_length;
      lane_length = u32 (segment_length * Types.sync_points);
      lanes = c.lanes;
      threads = if ltb c.lanes c.threads then c.lanes else c.threads;
      type = type;
    }

-- `(index == 0) ? (-1) : 0` is added in 32 bits.
pub reference_area_size : Instance → Position → Bool → ℕ
reference_area_size i p same_lane =
    let less_if_first = λ (n : ℕ). if p.index == 0 then sub32 n 1 else n in
    if p.pass == 0
    then (if p.slice == 0
        then sub32 p.index 1
        else if same_lane
        then sub32 (u32 (u32 (p.slice * i.segment_length) + p.index)) 1
        else less_if_first (u32 (p.slice * i.segment_length)))
    else if same_lane
    then sub32 (u32 (sub32 i.lane_length i.segment_length + p.index)) 1
    else less_if_first (sub32 i.lane_length i.segment_length)

-- `area - 1 - (area * (rand * rand >> 32) >> 32)` in 64 bits.
pub relative_position : ℕ → ℕ → ℕ
relative_position area pseudo_rand =
    let squared = u64 (pseudo_rand * pseudo_rand) >>> 32 in
    sub64 (sub32 area 1) (u64 (area * squared) >>> 32)

pub start_position : Instance → Position → ℕ
start_position i p =
    if p.pass == 0
    then 0
    else if p.slice == Types.sync_points - 1
    then 0
    else u32 ((p.slice + 1) * i.segment_length)

pub index_alpha : Instance → Position → ℕ → Bool → ℕ
index_alpha i p pseudo_rand same_lane =
    let relative = relative_position (reference_area_size i p same_lane) pseudo_rand in
    u32 (u64 (start_position i p + relative) % i.lane_length)

-- ===== src/Argon2/Index/Layout.antt =====
-- The layout of the memory of a valid context.
use security_core.Common.{
  ℕ, ◌+◌, ◌*◌, ◌/◌, ◌^◌, ◌≤◌, ◌<◌, ◌≡◌, arith, u32, ltb, le→ltb, if◌then◌else◌,
}
use security_core.Argon2.Types.{Context, Argon2Type}
use security_core.Argon2.Validate.Sound.{IsValidContext}
use security_core.Argon2.Index.{Instance, make_instance}

-- Four segments of two blocks at least make a lane, and the lanes make the memory, whose size is
-- a `uint32_t`.
pub record IsLayout (i : Instance) : Type 0 where
  pub two_blocks : 2 ≤ i.segment_length
  pub four_segments : i.lane_length ≡ 4 * i.segment_length
  pub all_lanes : i.memory_blocks ≡ i.lanes * i.lane_length
  pub lanes_pos : 1 ≤ i.lanes
  pub threads_range : (1 ≤ i.threads) × (i.threads ≤ i.lanes)
  pub lane_fits : i.lane_length < 2 ^ 32
  pub memory_fits : i.memory_blocks < 2 ^ 32

-- With `k` blocks for each segment index, `m / k` segments of blocks fit into `m`.
segments_fit : (m k : ℕ) → 1 ≤ k → 2 * k ≤ m → (2 ≤ m / k) × (m / k * k ≤ m) × (m < m / k * k + k)
segments_fit m k pos h = (grind arith, grind arith, grind arith)

le-mul : (s l : ℕ) → 1 ≤ l → s ≤ l * s
le-mul s l h = grind arith

module _ (c : Context) (type : Argon2Type) (v : IsValidContext c) where
  abbrev segment : ℕ
  segment = c.m_cost / (c.lanes * 4)

  -- Nothing wraps, and the memory is not raised to the least size.
  make_instance_lem : make_instance c type ≡ record {
    version = c.version;
    passes = c.t_cost;
    memory_blocks = u32 (segment * (c.lanes * 4));
    segment_length = segment;
    lane_length = u32 (segment * 4);
    lanes = c.lanes;
    threads = if ltb c.lanes c.threads then c.lanes else c.threads;
    type = type;
  }
  unfolding make_instance
  make_instance_lem =
      let least : u32 (8 * c.lanes) ≡ 8 * c.lanes = omega arith in
      let all : u32 (c.lanes * 4) ≡ c.lanes * 4 = omega arith in
      rw (least, all, le→ltb c.m_cost (8 * c.lanes) (omega arith))

  pub make_instance-IsLayout :
      IsLayout (make_instance c type)
      × ((make_instance c type).memory_blocks ≤ c.m_cost)
      × (c.m_cost < (make_instance c type).memory_blocks + 4 * c.lanes)
  make_instance-IsLayout =
      let (two, fits, rest) = segments_fit c.m_cost (c.lanes * 4) (omega arith) (omega arith) in
      let lane = le-mul segment c.lanes (omega arith) in
      let short : u32 (segment * 4) ≡ 4 * segment = omega (arith, lane, fits) in
      rw make_instance_lem (
        record {
          two_blocks = two;
          four_segments = omega (arith, lane, fits);
          all_lanes = rw short (omega (arith, fits));
          lanes_pos = omega arith;
          threads_range = ground arith;
          lane_fits = omega (arith, lane, fits);
          memory_fits = omega arith;
        },
        omega (arith, fits),
        omega (arith, fits, rest),
      )

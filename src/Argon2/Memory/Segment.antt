-- ===== src/Argon2/Memory/Segment.antt =====
-- `fill_segment` of ref.c. The memory is the list of its blocks, and 32-bit offsets wrap.
pub mod Place
pub mod Local
pub mod Reads
pub mod Order
use security_core.Common.{
  ℕ, zero, suc, ◌+◌, ◌-◌, ◌*◌, ◌/◌, ◌%◌, Bool, true, false, not, ◌&&◌, ◌||◌, List, [], get_or, set,
  ltb, ◌==◌, bit_and, if◌then◌else◌, u32, u64, sub32, ◌>>>◌,
}
use security_core.Argon2.Types
use security_core.Argon2.Types.{Argon2Type, argon2_d, argon2_i, argon2_id, type_value}
use security_core.Argon2.Index.{Instance, Position, index_alpha}
use security_core.Argon2.Memory.Block.{Block, init_block_value}
use security_core.Argon2.Memory.Fill.{Addresses, fill_block, next_addresses}

abbrev pub addresses_in_block : ℕ
addresses_in_block = 128

abbrev pub Memory : Type 0
Memory = List Block

abbrev pub zero_block : Block
zero_block = init_block_value 0

abbrev pub is_first : Position → Bool
is_first p = (p.pass == 0) && (p.slice == 0)

abbrev pub data_independent_addressing : Instance → Position → Bool
data_independent_addressing i p = elim i.type [
  | argon2_d ↦ false
  | argon2_i ↦ true
  | argon2_id ↦ (p.pass == 0) && ltb p.slice (Types.sync_points / 2)
]

-- The input block; the address block is not initialised yet, which is taken as zero: it is
-- overwritten before it is read.
unfoldable pub first_addresses : Instance → Position → Addresses
first_addresses i p =
    let v0 = set zero_block 0 p.pass in
    let v1 = set v0 1 p.lane in
    let v2 = set v1 2 p.slice in
    let v3 = set v2 3 i.memory_blocks in
    let v4 = set v3 4 i.passes in
    let v5 = set v4 5 (type_value i.type) in record { address = zero_block; input = v5 }

-- The lane of the reference block.
unfoldable pub reference_lane : Instance → Position → ℕ → ℕ
reference_lane i p pseudo_rand = if is_first p then p.lane else (pseudo_rand >>> 32) % i.lanes

-- The place of the reference block in the memory.
unfoldable pub reference : Instance → Position → ℕ → ℕ
reference i p pseudo_rand =
    let lane = reference_lane i p pseudo_rand in
    u64 (i.lane_length * lane) + index_alpha i p (bit_and pseudo_rand 0xffff_ffff) (lane == p.lane)

abbrev pub with_xor : Instance → Position → Bool
with_xor i p = not (i.version == Types.version_10) && not (p.pass == 0)

-- The block at a place of the memory.
abbrev pub block_at : Memory → ℕ → Block
block_at memory k = get_or memory k []

abbrev pub rotated : Instance → ℕ → ℕ → ℕ
rotated i curr prev = if curr % i.lane_length == 1 then sub32 curr 1 else prev

abbrev pub addresses_at : Bool → ℕ → Addresses → Addresses
addresses_at independent n a =
    if independent && (n % addresses_in_block == 0) then next_addresses zero_block a else a

abbrev pub pseudo_random : Bool → ℕ → Addresses → Memory → ℕ → ℕ
pseudo_random independent n a memory prev =
    if independent
    then get_or a.address (n % addresses_in_block) 0
    else get_or (block_at memory prev) 0 0

-- The body of the loop at the index `n`: the new block.
unfoldable pub new_block : Instance → Position → ℕ → ℕ → ℕ → ℕ → Memory → Block
new_block i p n curr prev rand memory =
    fill_block (block_at memory prev) (block_at memory (reference i (record p { index = n }) rand))
      (block_at memory curr) (with_xor i p)

-- The loop over the indices from `n` on; the fuel is the number of indices that are left.
unfoldable pub fill_loop : Instance → Position → Bool → ℕ → ℕ → ℕ → ℕ → Addresses → Memory → Memory
fill_loop i p independent zero n curr prev a memory = memory
fill_loop i p independent (suc left) n curr prev a memory =
    let at = rotated i curr prev in
    let a' = addresses_at independent n a in
    let rand = pseudo_random independent n a' memory at in
    fill_loop i p independent left (n + 1) (u32 (curr + 1)) (u32 (at + 1)) a'
      (set memory curr (new_block i p n curr at rand memory))

abbrev pub starting_index : Position → ℕ
starting_index p = if is_first p then 2 else 0

abbrev pub first_offset : Instance → Position → ℕ
first_offset i p =
    u32 (u32 (u32 (p.lane * i.lane_length) + u32 (p.slice * i.segment_length)) + starting_index p)

abbrev pub previous_offset : Instance → ℕ → ℕ
previous_offset i curr =
    if curr % i.lane_length == 0 then sub32 (u32 (curr + i.lane_length)) 1 else sub32 curr 1

unfoldable pub fill_segment : Instance → Position → Memory → Memory
fill_segment i p memory =
    let independent = data_independent_addressing i p in
    let a0 = first_addresses i p in
    let a1 = if is_first p && independent then next_addresses zero_block a0 else a0 in
    let curr = first_offset i p in
    fill_loop i p independent (i.segment_length - starting_index p) (starting_index p) curr
      (previous_offset i curr) a1 memory

-- ===== src/Argon2/Memory/Tests.antt =====
-- Examples of the theorems on the memory.
use security_core.Common.{
  All-replicate, ◌⊎◌, sym, set, ◌+◌, err, ◌*◌, ◌^◌, ◌≡◌, ◌<◌, ◌↔◌, refl, inl, true, false, ltb,
  none, some, [], ◌∷◌, codes, length, replicate, ok, arith,
}
use security_core.Argon2.Types.{
  Context, argon2_id, version_13, thread_fail, memory_allocation_error,
}
use security_core.Argon2.Index.{Instance}
use security_core.Argon2.Index.Layout.{IsLayout}
use security_core.Argon2.Blake2b.Stream.Chunks.{joined}
use security_core.Argon2.Blake2b.Hash.{blake2b}
use security_core.Argon2.Memory.Block.{Block}
use security_core.Argon2.Memory.Segment.{Memory, block_at, fill_segment}
use security_core.Argon2.Memory.Segment.Order.{fill_segment-frame, fill_segment_comm}
use security_core.Argon2.Memory.Passes.{start_of}
use security_core.Argon2.Memory.Init.{initial_hash, prehash_input, initial_hash-blake2b}
use security_core.Argon2.Memory.Platform.{Platform}
use security_core.Argon2.Memory.Passes.{fill_memory_blocks_st}
use security_core.Argon2.Memory.Segment.Local.{get_or-set}
use security_core.Argon2.Memory.Shape.{IsShaped, IsShaped-set, fill_memory_blocks_st-IsShaped}
use security_core.Argon2.Memory.Determined.Slices.{fill_memory_blocks_st_determined}
use security_core.Argon2.Memory.Threads.{fill_memory_blocks}
use security_core.Argon2.Memory.Threads.Refinement.{
  HasFailure, fill_memory_blocks-fill_memory_blocks_st,
}
use security_core.Argon2.Memory.Finalize.{allocate_memory, allocate_memory_iff}

-- Three lanes of four segments of two blocks.
abbrev three_lanes : Instance
three_lanes = record {
  version = version_13;
  passes = 2;
  memory_blocks = 24;
  segment_length = 2;
  lane_length = 8;
  lanes = 3;
  threads = 1;
  type = argon2_id;
}

three_lanes-IsLayout : IsLayout three_lanes
three_lanes-IsLayout = record {
  two_blocks = omega arith;
  four_segments = refl;
  all_lanes = refl;
  lanes_pos = omega arith;
  threads_range = (omega arith, omega arith);
  lane_fits = omega arith;
  memory_fits = omega arith;
}

abbrev some_memory : Memory
some_memory = replicate 24 (replicate 128 5)

fill_segment-frame_example :
    block_at (fill_segment three_lanes (start_of 1 2 1) some_memory) 3 ≡ replicate 128 5
fill_segment-frame_example =
    fill_segment-frame three_lanes three_lanes-IsLayout (start_of 1 2 1) (omega arith) (omega arith)
      some_memory 3 (inl (omega arith))

fill_segment_comm_example :
    fill_segment three_lanes
      (start_of 1 2 0)
      (fill_segment three_lanes (start_of 1 2 2) some_memory)
    ≡ fill_segment three_lanes
        (start_of 1 2 2)
        (fill_segment three_lanes (start_of 1 2 0) some_memory)
fill_segment_comm_example =
    fill_segment_comm three_lanes three_lanes-IsLayout (start_of 1 2 0) (start_of 1 2 2) some_memory
      (omega arith) (omega arith) (omega arith) refl (λ e. absurd (omega (arith, e)))

abbrev some_context : Context
some_context = record {
  out = some (replicate 32 0);
  outlen = 32;
  pwd = some (codes "password");
  pwdlen = 8;
  salt = some (codes "somesalt");
  saltlen = 8;
  secret = none;
  secretlen = 0;
  ad = none;
  adlen = 0;
  t_cost = 2;
  m_cost = 24;
  lanes = 3;
  threads = 1;
  version = version_13;
  allocate_cbk = false;
  free_cbk = false;
  flags = 0;
}

initial_hash-blake2b_example :
    (initial_hash some_context argon2_id).0
    ≡ blake2b 64
        (some (joined (prehash_input some_context argon2_id)))
        (length (joined (prehash_input some_context argon2_id)))
        none
        0
initial_hash-blake2b_example = initial_hash-blake2b some_context argon2_id refl refl tt tt

allocate_memory_iff_example :
    (allocate_memory (λ n. ltb n 100000) 24 1024 ≡ ok 24576)
    ↔ ((24 * 1024 < 2 ^ 64) × (24576 ≡ 24 * 1024) × (ltb 24576 100000 ≡ true))
allocate_memory_iff_example = allocate_memory_iff (λ n. ltb n 100000) 24 1024 24576

abbrev two_threads : Instance
two_threads = record three_lanes { threads = 2 }

two_threads-IsLayout : IsLayout two_threads
two_threads-IsLayout = record {
  two_blocks = omega arith;
  four_segments = refl;
  all_lanes = refl;
  lanes_pos = omega arith;
  threads_range = (omega arith, omega arith);
  lane_fits = omega arith;
  memory_fits = omega arith;
}

-- Threads that take turns, in a memory that is not empty.
abbrev turns : Platform
turns = record {
  malloc = λ q n. true;
  garbage = λ q n. replicate n 7;
  allocate_cbk = λ n. true;
  garbage_blocks = λ n. replicate n (replicate 128 9);
  garbage_hash = replicate 64 3;
  garbage_context = some_context;
  calloc_thread = true;
  calloc_thr_data = true;
  thread_create = λ r s l. true;
  thread_join = λ r s l. true;
  rounds = λ r s call. 1 ∷ 0 ∷ 0 ∷ 1 ∷ [];
}

fill_memory_blocks-fill_memory_blocks_st_example :
    (fill_memory_blocks turns two_threads some_memory
      ≡ ok (fill_memory_blocks_st two_threads some_memory))
    ⊎ ((fill_memory_blocks turns two_threads some_memory ≡ err thread_fail) × HasFailure turns)
    ⊎ ((fill_memory_blocks turns two_threads some_memory ≡ err memory_allocation_error)
        × ((true ≡ false) ⊎ (true ≡ false)))
fill_memory_blocks-fill_memory_blocks_st_example =
    fill_memory_blocks-fill_memory_blocks_st turns two_threads two_threads-IsLayout some_memory

some_memory-IsShaped : IsShaped three_lanes some_memory
some_memory-IsShaped =
    (refl, All-replicate (λ (b : Block). length b ≡ 128) 24 (replicate 128 5) refl)

fill_memory_blocks_st-IsShaped_example :
    IsShaped three_lanes (fill_memory_blocks_st three_lanes some_memory)
fill_memory_blocks_st-IsShaped_example =
    fill_memory_blocks_st-IsShaped three_lanes three_lanes-IsLayout some_memory some_memory-IsShaped

-- Another block 5, which is not one of the first two of a lane.
abbrev other_memory : Memory
other_memory = set some_memory 5 (replicate 128 6)

fill_memory_blocks_st_determined_example :
    fill_memory_blocks_st three_lanes some_memory ≡ fill_memory_blocks_st three_lanes other_memory
fill_memory_blocks_st_determined_example =
    fill_memory_blocks_st_determined three_lanes three_lanes-IsLayout some_memory other_memory
      some_memory-IsShaped
      (IsShaped-set three_lanes three_lanes-IsLayout some_memory 5 (replicate 128 6) refl
        some_memory-IsShaped)
      (λ lane place low two. sym (
        get_or-set some_memory (lane * 8 + place) 5 (replicate 128 6)
          (λ e. absurd (omega (arith, e, low, two)))))
      (omega arith)

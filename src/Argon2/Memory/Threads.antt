-- ===== src/Argon2/Memory/Threads.antt =====
-- `fill_memory_blocks_mt` and `fill_memory_blocks` of core.c. The threads of a slice take turns in
-- any order, a round of the loop of `fill_segment` at a time.
pub mod Invariant
pub mod Slice
pub mod Refinement
use security_core.Common.{
  ℕ, zero, suc, ◌+◌, ◌-◌, Bool, true, false, ◌&&◌, List, [], ◌∷◌, set, ltb, leb, ◌==◌,
  if◌then◌else◌, u32, Result, ok, err, ◌>>=◌, ◌>>◌, guard,
}
use security_core.Argon2.Types
use security_core.Argon2.Types.{
  ErrorCode, memory_allocation_error, thread_fail, incorrect_parameter,
}
use security_core.Argon2.Index.{Instance, Position}
use security_core.Argon2.Memory.Fill.{Addresses, next_addresses}
use security_core.Argon2.Memory.Segment.{
  Memory, zero_block, is_first, data_independent_addressing, first_addresses, rotated, addresses_at,
  pseudo_random, new_block, fill_loop, starting_index, first_offset, previous_offset,
}
use security_core.Argon2.Memory.Passes.{start_of, fill_memory_blocks_st}
use security_core.Argon2.Memory.Platform.{Platform, Call, created, joined}

-- The local variables of `fill_segment` in a thread: the rounds that are left, the index, the two
-- offsets and the address blocks.
pub record Worker : Type 0 where
  pub left : ℕ
  pub index : ℕ
  pub curr : ℕ
  pub prev : ℕ
  pub addresses : Addresses

-- Before the first round.
unfoldable pub start_worker : Instance → Position → Worker
start_worker i p =
    let a0 = first_addresses i p in
    let curr = first_offset i p in
    record {
      left = i.segment_length - starting_index p;
      index = starting_index p;
      curr = curr;
      prev = previous_offset i curr;
      addresses =
          if is_first p && data_independent_addressing i p
          then next_addresses zero_block a0
          else a0;
    }

-- One round, if one is left.
unfoldable pub advance : Instance → Position → ℕ → Worker → Memory → Worker × Memory
advance i p zero w memory = (record w { left = 0 }, memory)
advance i p (suc left) w memory =
    let independent = data_independent_addressing i p in
    let at = rotated i w.curr w.prev in
    let a' = addresses_at independent w.index w.addresses in
    let rand = pseudo_random independent w.index a' memory at in
    (
      record {
        left = left;
        index = w.index + 1;
        curr = u32 (w.curr + 1);
        prev = u32 (at + 1);
        addresses = a';
      },
      set memory w.curr (new_block i p w.index w.curr at rand memory),
    )

-- The memory after all rounds that are left.
unfoldable pub finished : Instance → Position → Worker → Memory → Memory
finished i p w memory =
    fill_loop i p (data_independent_addressing i p) w.left w.index w.curr w.prev w.addresses memory

-- A slice that is being filled. The threads of the lanes below `created` exist; what stands for a
-- later lane is the state in which its thread will start.
pub record Running : Type 0 where
  pub memory : Memory
  pub created : ℕ
  pub workers : ℕ → Worker

abbrev pub updated : (ℕ → Worker) → ℕ → Worker → ℕ → Worker
updated workers l w k = if k == l then w else workers k

unfoldable pub run_round : Instance → ℕ → ℕ → ℕ → Running → Running
unfolding advance
run_round i r s l run =
    let next = advance i (start_of r s l) (run.workers l).left (run.workers l) run.memory in
    if ltb l run.created
    then record run { memory = next.1; workers = updated run.workers l next.0 }
    else run

unfoldable pub run_rounds : Instance → ℕ → ℕ → List ℕ → Running → Running
unfolding run_round
run_rounds i r s [] run = run
run_rounds i r s (l ∷ lanes) run = run_rounds i r s lanes (run_round i r s l run)

-- A join returns when the thread has ended: the rounds that it has left are done.
unfoldable pub end_worker : Instance → ℕ → ℕ → ℕ → Running → Running
unfolding finished
end_worker i r s l run = record run {
  memory = finished i (start_of r s l) (run.workers l) run.memory;
  workers = updated run.workers l (record (run.workers l) { left = 0 });
}

unfoldable pub join_thread : Platform → Instance → ℕ → ℕ → ℕ → Running → Result ErrorCode Running
unfolding run_rounds end_worker
join_thread p i r s l run = do
  guard (p.thread_join r s l) thread_fail
  ok (end_worker i r s l (run_rounds i r s (p.rounds r s (joined l)) run))

-- After a failure the threads that exist are joined, which does not change what is returned.
unfoldable pub create_thread : Platform → Instance → ℕ → ℕ → ℕ → Running → Result ErrorCode Running
unfolding run_rounds
create_thread p i r s l run = do
  let run' = run_rounds i r s (p.rounds r s (created l)) run
  guard (p.thread_create r s l) thread_fail
  ok (record run' { created = l + 1 })

-- "Calling threads": `count` lanes from the lane `l` on.
unfoldable pub create_threads :
    Platform → Instance → ℕ → ℕ → ℕ → ℕ → Running → Result ErrorCode Running
unfolding join_thread create_thread
create_threads p i r s zero l run = ok run
create_threads p i r s (suc count) l run = do
  run1 ← if leb i.threads l then join_thread p i r s (l - i.threads) run else ok run
  run2 ← create_thread p i r s l run1
  create_threads p i r s count (l + 1) run2

-- "Joining remaining threads": `count` lanes from the lane `l` on.
unfoldable pub join_threads :
    Platform → Instance → ℕ → ℕ → ℕ → ℕ → Running → Result ErrorCode Running
unfolding join_thread
join_threads p i r s zero l run = ok run
join_threads p i r s (suc count) l run = do
  run1 ← join_thread p i r s l run
  join_threads p i r s count (l + 1) run1

abbrev pub start_running : Instance → ℕ → ℕ → Memory → Running
start_running i r s memory = record {
  memory = memory;
  created = 0;
  workers = λ l. start_worker i (start_of r s l);
}

unfoldable pub fill_slice_mt : Platform → Instance → ℕ → ℕ → Memory → Result ErrorCode Memory
unfolding start_worker create_threads join_threads
fill_slice_mt p i r s memory = do
  run1 ← create_threads p i r s i.lanes 0 (start_running i r s memory)
  run2 ← join_threads p i r s i.threads (i.lanes - i.threads) run1
  ok run2.memory

-- `count` slices from `s` on, and `count` passes from `r` on.
unfoldable pub fill_slices_mt : Platform → Instance → ℕ → ℕ → ℕ → Memory → Result ErrorCode Memory
unfolding fill_slice_mt
fill_slices_mt p i r zero s memory = ok memory
fill_slices_mt p i r (suc count) s memory = do
  memory1 ← fill_slice_mt p i r s memory
  fill_slices_mt p i r count (s + 1) memory1

unfoldable pub fill_passes_mt : Platform → Instance → ℕ → ℕ → Memory → Result ErrorCode Memory
unfolding fill_slices_mt
fill_passes_mt p i zero r memory = ok memory
fill_passes_mt p i (suc count) r memory = do
  memory1 ← fill_slices_mt p i r Types.sync_points 0 memory
  fill_passes_mt p i count (r + 1) memory1

unfoldable pub fill_memory_blocks_mt : Platform → Instance → Memory → Result ErrorCode Memory
unfolding fill_passes_mt
fill_memory_blocks_mt p i memory = do
  guard p.calloc_thread memory_allocation_error
  guard p.calloc_thr_data memory_allocation_error
  fill_passes_mt p i i.passes 0 memory

-- The instance is not NULL.
unfoldable pub fill_memory_blocks : Platform → Instance → Memory → Result ErrorCode Memory
unfolding fill_memory_blocks_st fill_memory_blocks_mt
fill_memory_blocks p i memory =
    if i.lanes == 0
    then err incorrect_parameter
    else if i.threads == 1
    then ok (fill_memory_blocks_st i memory)
    else fill_memory_blocks_mt p i memory

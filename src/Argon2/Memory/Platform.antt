-- ===== src/Argon2/Memory/Platform.antt =====
-- What the C code takes from the allocator and from the thread library. Neither is under Sources;
-- both are arguments of the functions that call them.
use security_core.Common.{ℕ, Bool, Bytes, List}
use security_core.Argon2.Types.{Context}
use security_core.Argon2.Memory.Segment.{Memory}

-- A call of `malloc`, named by where it stands.
pub data Request : Type 0 where
  hash_out decoded_salt decoded_out verified_out blocks : Request

-- A return of the main thread from `argon2_thread_create` or `argon2_thread_join` for a lane.
pub data Call : Type 0 where
  created joined : ℕ → Call

pub record Platform : Type 0 where
  -- Whether there is memory for a number of bytes, and what stands in it at first.
  pub malloc : Request → ℕ → Bool
  pub garbage : Request → ℕ → Bytes
  -- Whether `allocate_cbk` of a context sets its pointer for a number of bytes.
  pub allocate_cbk : ℕ → Bool
  -- The memory of a number of blocks at first, and the 64 bytes of `blockhash`.
  pub garbage_blocks : ℕ → Memory
  pub garbage_hash : Bytes
  -- The local variable `ctx` of `argon2_verify` before its fields are set.
  pub garbage_context : Context
  -- The two calls of `calloc` in `fill_memory_blocks_mt`.
  pub calloc_thread : Bool
  pub calloc_thr_data : Bool
  -- Whether the call for a pass, a slice and a lane returns 0.
  pub thread_create : ℕ → ℕ → ℕ → Bool
  pub thread_join : ℕ → ℕ → ℕ → Bool
  -- The lanes whose threads do one round of their loop before the call returns in a pass and a slice,
  -- after the return before.
  pub rounds : ℕ → ℕ → Call → List ℕ

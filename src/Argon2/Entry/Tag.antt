-- ===== src/Argon2/Entry/Tag.antt =====
-- The tag that `argon2_ctx` computes, and its independence of the platform.
pub mod Computed
use security_core.Common.{
  ◌&&◌, ℕ, zero, suc, ◌+◌, ◌-◌, ◌*◌, ◌≡◌, ◌≤◌, ◌<◌, refl, sym, ap, ap₂, subst, ◌∙◌, ◌⊎◌, inl, inr,
  Bool, true, false, Option, none, some, List, [], ◌∷◌, All, Bytes, AreBytes, length, replicate,
  length-replicate, All-replicate, ltb, ◌==◌, bit_and, Bool-cases, Option-cases, if◌then◌else◌, u64,
  Result, ok, err, ◌>>◌, guard, arith,
}
use security_core.Argon2.Types
use security_core.Argon2.Types.{
  ErrorCode, Context, Argon2Type, thread_fail, memory_allocation_error,
}
use security_core.Argon2.Validate.{validate_inputs}
use security_core.Argon2.Validate.Sound.{IsValidContext, validate_inputs_iff}
use security_core.Argon2.Encoding.{write_front}
use security_core.Argon2.Index.{Instance, make_instance}
use security_core.Argon2.Index.Layout.{IsLayout, make_instance-IsLayout}
use security_core.Argon2.Blake2b.Hash.Size.{Answers}
use security_core.Argon2.Blake2b.Hash.Output.{blake2b_long-AreBytes}
use security_core.Argon2.Memory.Block.{init_block_value}
use security_core.Argon2.Memory.Segment.{Memory, block_at, zero_block}
use security_core.Argon2.Memory.Segment.Place.{lane_end}
use security_core.Argon2.Memory.Passes.{fill_memory_blocks_st}
use security_core.Argon2.Memory.Platform.{Platform, Request, blocks, decoded_salt, decoded_out}
use security_core.Argon2.Memory.Shape.{IsShaped, block_at-IsShaped, fill_memory_blocks_st-IsShaped}
use security_core.Argon2.Memory.Determined.Slices.{fill_memory_blocks_st_determined}
use security_core.Argon2.Memory.Threads.{fill_memory_blocks}
use security_core.Argon2.Memory.Threads.Refinement.{
  HasFailure, fill_memory_blocks-fill_memory_blocks_st,
}
use security_core.Argon2.Memory.Init.{
  initial_hash, clear_password, clear_secret, flag_clear_password, flag_clear_secret, wiped,
}
use security_core.Argon2.Memory.Init.Trimmed.{IsHeld, initial_hash-Answers}
use security_core.Argon2.Memory.Start.{
  allocator, blockhash, start_blocks, initialize, fill_first_blocks-IsShaped,
  fill_first_blocks_determined,
}
use security_core.Argon2.Memory.Finalize.{
  allocate_memory, allocate_memory_iff, fill_first_blocks, finalize, finalize-Answers,
}
use security_core.Argon2.Entry.{argon2_ctx, run_ctx, finish_ctx, fill_ctx, write_tag, Outcome}

abbrev pub tag_of : Instance → ℕ → Option Bytes → Option Bytes
tag_of i outlen none = none
tag_of i outlen (some hash) = finalize i outlen (
    fill_memory_blocks_st i
      (fill_first_blocks i hash i.lanes 0 (replicate i.memory_blocks zero_block)))

-- The tag, computed by one thread in a memory of zeros.
unfoldable pub argon2_tag : Context → Argon2Type → Option Bytes
argon2_tag c type = tag_of (make_instance c type) c.outlen (initial_hash c type).0

-- What is left of a context after `initial_hash`.
abbrev pub cleared_context : Context → Context
cleared_context c = clear_secret (clear_password c)

-- The allocator gives as much memory as it is asked for, and a block has 128 words.
pub record IsPlatform (p : Platform) : Type 0 where
  pub buffers : (q : Request) (n : ℕ) → length (p.garbage q n) ≡ n
  pub memory : (n : ℕ) → length (p.garbage_blocks n) ≡ n
  pub words : (n : ℕ) → All (λ b. length b ≡ 128) (p.garbage_blocks n)

-- The buffers are as long as their lengths say, as a caller promises.
pub record IsBuffered (c : Context) : Type 0 where
  pub pwd_held : IsHeld c.pwd c.pwdlen
  pub salt_held : IsHeld c.salt c.saltlen
  pub secret_held : IsHeld c.secret c.secretlen
  pub ad_held : IsHeld c.ad c.adlen

-- A request for memory that was refused.
abbrev pub LacksMemory : Platform → Type 0
LacksMemory p =
    ((q : Request) × (n : ℕ) × (p.malloc q n ≡ false))
    ⊎ ((n : ℕ) × (p.allocate_cbk n ≡ false))
    ⊎ (p.calloc_thread ≡ false)
    ⊎ (p.calloc_thr_data ≡ false)

-- The two failures that the platform may cause, with their causes.
abbrev pub Fails : Platform → Outcome → Type 0
Fails p res =
    ((res ≡ err thread_fail) × HasFailure p) ⊎ ((res ≡ err memory_allocation_error) × LacksMemory p)

pub allocator-LacksMemory :
    (p : Platform) (c : Context) (n : ℕ) → allocator p c n ≡ false → LacksMemory p
allocator-LacksMemory p c n h = elim (Bool-cases c.allocate_cbk) [
  | inl e ↦ inr (inl (n, ap (λ b. (if b then p.allocate_cbk else p.malloc blocks) n) (sym e) ∙ h))
  | inr e ↦ inl (blocks, n, ap (λ b. (if b then p.allocate_cbk else p.malloc blocks) n) (sym e) ∙ h)
]

-- The clearing keeps the output buffer and its length.
abbrev KeepsOut : Context → Context → Type 0
KeepsOut c d = (d.out ≡ c.out) × (d.outlen ≡ c.outlen)

KeepsOut-if : (b : Bool) (c d : Context) → KeepsOut c d → KeepsOut c (if b then c else d)
KeepsOut-if true c d h = (refl, refl)
KeepsOut-if false c d h = h

KeepsOut-elim :
    (o : Option Bytes) (c : Context) (f : Bytes → Context)
    → ((x : Bytes) → KeepsOut c (f x))
    → KeepsOut c (elim o [ none ↦ c | some x ↦ f x ])
KeepsOut-elim none c f h = (refl, refl)
KeepsOut-elim (some x) c f h = h x

clear_password-KeepsOut : (c : Context) → KeepsOut c (clear_password c)
unfolding clear_password
clear_password-KeepsOut c = KeepsOut-elim c.pwd c _ (λ x.
    KeepsOut-if (bit_and c.flags flag_clear_password == 0) c
      (record c { pwd = some (wiped x c.pwdlen); pwdlen = 0 }) (refl, refl))

clear_secret-KeepsOut : (c : Context) → KeepsOut c (clear_secret c)
unfolding clear_secret
clear_secret-KeepsOut c = KeepsOut-elim c.secret c _ (λ x.
    KeepsOut-if (bit_and c.flags flag_clear_secret == 0) c
      (record c { secret = some (wiped x c.secretlen); secretlen = 0 }) (refl, refl))

pub cleared_context-KeepsOut : (c : Context) → KeepsOut c (cleared_context c)
cleared_context-KeepsOut c =
    let first = clear_password-KeepsOut c in
    let second = clear_secret-KeepsOut (clear_password c) in
    (second.0 ∙ first.0, second.1 ∙ first.1)

pub zeros-IsShaped : (i : Instance) → IsShaped i (replicate i.memory_blocks zero_block)
unfolding init_block_value
zeros-IsShaped i =
    let zeros : length zero_block ≡ 128 = length-replicate 128 (0 * 0x0101_0101_0101_0101) in
    (length-replicate i.memory_blocks zero_block, All-replicate _ i.memory_blocks zero_block zeros)

both_fail :
    (b : Bool)
    → let failed : Result ErrorCode ℕ = err memory_allocation_error in
      (guard b memory_allocation_error >> failed) ≡ failed
both_fail true = refl
both_fail false = refl

pub allocate_memory_cases :
    (a : ℕ → Bool) (num : ℕ)
    → num < 4294967296
    → (allocate_memory a num 1024 ≡ ok (num * 1024))
      ⊎ ((allocate_memory a num 1024 ≡ err memory_allocation_error) × (a (num * 1024) ≡ false))
allocate_memory_cases a num h = elim (Bool-cases (a (num * 1024))) [
  | inl e ↦ inl ((allocate_memory_iff a num 1024 (num * 1024)).1 (omega (arith, h), refl, e))
  | inr e ↦
      let same : u64 (num * 1024) ≡ num * 1024 = omega (arith, h) in
      inr (unfold allocate_memory in rw (same, e) (both_fail _), e)
]

pub both_rooms :
    (p : Platform) (n : ℕ)
    → (p.malloc decoded_salt n && p.malloc decoded_out n) ≡ false
    → LacksMemory p
both_rooms p n h = elim (Bool-cases (p.malloc decoded_salt n)) [
  | inr e ↦ inl (decoded_salt, n, e)
  | inl e ↦ inl (decoded_out, n, ap (λ b. b && p.malloc decoded_out n) (sym e) ∙ h)
]

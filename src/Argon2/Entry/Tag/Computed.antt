-- ===== src/Argon2/Entry/Tag/Computed.antt =====
-- `argon2_ctx` computes the tag, on every platform.
use security_core.Common.{
  ℕ, ◌-◌, ◌≡◌, ◌≤◌, ◌<◌, sym, ap, ap₂, ◌∙◌, ◌⊎◌, inl, inr, some, Bytes, AreBytes, length, replicate,
  ok, err, arith,
}
use security_core.Argon2.Types.{ErrorCode, Context, Argon2Type}
use security_core.Argon2.Validate.Sound.{IsValidContext, validate_inputs_iff}
use security_core.Argon2.Encoding.{write_front}
use security_core.Argon2.Index.{Instance, make_instance}
use security_core.Argon2.Index.Layout.{IsLayout, make_instance-IsLayout}
use security_core.Argon2.Blake2b.Hash.Size.{Answers}
use security_core.Argon2.Blake2b.Hash.Output.{blake2b_long-AreBytes}
use security_core.Argon2.Memory.Segment.{Memory, zero_block}
use security_core.Argon2.Memory.Segment.Place.{lane_end}
use security_core.Argon2.Memory.Passes.{fill_memory_blocks_st}
use security_core.Argon2.Memory.Platform.{Platform}
use security_core.Argon2.Memory.Shape.{IsShaped, block_at-IsShaped, fill_memory_blocks_st-IsShaped}
use security_core.Argon2.Memory.Determined.Slices.{fill_memory_blocks_st_determined}
use security_core.Argon2.Memory.Threads.Refinement.{fill_memory_blocks-fill_memory_blocks_st}
use security_core.Argon2.Memory.Init.{initial_hash}
use security_core.Argon2.Memory.Init.Trimmed.{initial_hash-Answers}
use security_core.Argon2.Memory.Start.{
  allocator, blockhash, start_blocks, initialize, fill_first_blocks-IsShaped,
  fill_first_blocks_determined,
}
use security_core.Argon2.Memory.Finalize.{
  allocate_memory, fill_first_blocks, finalize, finalize-Answers,
}
use security_core.Argon2.Entry.{argon2_ctx, run_ctx, finish_ctx, fill_ctx, write_tag}
use security_core.Argon2.Entry.Tag.{
  tag_of, argon2_tag, cleared_context, IsPlatform, IsBuffered, Fails, cleared_context-KeepsOut,
  zeros-IsShaped, allocate_memory_cases, allocator-LacksMemory,
}

module _ (p : Platform) (c : Context) (type : Argon2Type) (platform : IsPlatform p)
    (valid : IsValidContext c) (buffered : IsBuffered c) where
  abbrev instance_of : Instance
  instance_of = make_instance c type

  instance-IsLayout : IsLayout instance_of
  instance-IsLayout = (make_instance-IsLayout c type valid).0

  garbage-IsShaped : IsShaped instance_of (p.garbage_blocks instance_of.memory_blocks)
  garbage-IsShaped = (platform.memory _, platform.words _)

  module _ (hash : Bytes) (size : length hash ≡ 64) where
    abbrev filled : Memory → Memory
    filled m =
        fill_memory_blocks_st instance_of (fill_first_blocks instance_of hash instance_of.lanes 0 m)

    filled-IsShaped : (m : Memory) → IsShaped instance_of m → IsShaped instance_of (filled m)
    filled-IsShaped m shaped = fill_memory_blocks_st-IsShaped instance_of instance-IsLayout _ (
        fill_first_blocks-IsShaped instance_of instance-IsLayout hash size instance_of.lanes 0 m
          shaped)

    -- Neither what the allocator leaves in the memory matters ...
    filled_same :
        filled (p.garbage_blocks instance_of.memory_blocks)
        ≡ filled (replicate instance_of.memory_blocks zero_block)
    unfolding make_instance
    filled_same =
        let garbage = garbage-IsShaped in
        let zeros = zeros-IsShaped instance_of in
        fill_memory_blocks_st_determined instance_of instance-IsLayout _ _
          (fill_first_blocks-IsShaped instance_of instance-IsLayout hash size instance_of.lanes 0 _
            garbage)
          (fill_first_blocks-IsShaped instance_of instance-IsLayout hash size instance_of.lanes 0 _
            zeros)
          (fill_first_blocks_determined instance_of instance-IsLayout hash size _ _
            (garbage.0 ∙ sym zeros.0))
          valid.time_range.0

    tag-Answers :
        (n : ℕ) (m : Memory)
        → 4 ≤ n
        → n < 4294967296
        → IsShaped instance_of m
        → Answers n (finalize instance_of n m)
    tag-Answers n m low high shaped =
        let layout = instance-IsLayout in
        let all = layout.all_lanes in
        let pos = layout.lanes_pos in
        let four = layout.four_segments in
        let two = layout.two_blocks in
        let fits = lane_end instance_of layout 0 pos in
        finalize-Answers instance_of n m
          (block_at-IsShaped instance_of layout m (instance_of.lane_length - 1) shaped
            (omega (arith, fits, four, two)))
          (omega (arith, low)) high

  ctx_valid : argon2_ctx p c type ≡ fill_ctx p instance_of (initialize p instance_of c)
  unfolding argon2_ctx
  ctx_valid = ap (run_ctx p c type) ((validate_inputs_iff c).1 valid)

  initialize_fails :
      (e : ErrorCode)
      → allocate_memory (allocator p c) instance_of.memory_blocks 1024 ≡ err e
      → initialize p instance_of c ≡ (err e, c)
  unfolding initialize
  initialize_fails e h = ap (start_blocks p instance_of c) h

  initialize_done :
      (hash : Bytes) (n : ℕ)
      → (initial_hash c type).0 ≡ some hash
      → allocate_memory (allocator p c) instance_of.memory_blocks 1024 ≡ ok n
      → initialize p instance_of c ≡ (
        ok (
            fill_first_blocks instance_of hash instance_of.lanes 0
              (p.garbage_blocks instance_of.memory_blocks)),
        cleared_context c,
      )
  unfolding initialize initial_hash make_instance
  initialize_done hash n e h =
      ap (start_blocks p instance_of c) h
      ∙ ap
          (λ o. (
            ok (
                fill_first_blocks instance_of (blockhash p o) instance_of.lanes 0
                  (p.garbage_blocks instance_of.memory_blocks)),
            cleared_context c,
          ))
          e

  tag-AreBytes :
      (n : ℕ) (m : Memory) (tag : Bytes) → finalize instance_of n m ≡ some tag → AreBytes tag
  unfolding finalize
  tag-AreBytes n m tag e = blake2b_long-AreBytes n _ 1024 tag e

  -- On a valid context, whose buffers are as long as their lengths say, `argon2_ctx` returns
  -- ARGON2_OK with the tag of `argon2_tag`, of `outlen` bytes, at the front of the output buffer,
  -- whatever stood in the memory and in whatever order the threads ran; otherwise it returns
  -- ARGON2_THREAD_FAIL after a failure of the thread library, or ARGON2_MEMORY_ALLOCATION_ERROR when
  -- there is no memory.
  pub argon2_ctx-argon2_tag :
      ((tag : Bytes) × (argon2_tag c type ≡ some tag)
        × (length tag ≡ c.outlen)
        × AreBytes tag
        × (argon2_ctx p c type
            ≡ (ok tt, record (cleared_context c) { out = write_front tag c.out })))
      ⊎ Fails p (argon2_ctx p c type).0
  unfolding argon2_tag Answers
  argon2_ctx-argon2_tag =
      let b = buffered in
      let (hash, e, size) =
        initial_hash-Answers c type b.pwd_held b.salt_held b.secret_held b.ad_held in
      let layout = instance-IsLayout in
      let first =
        fill_first_blocks instance_of hash instance_of.lanes 0
          (p.garbage_blocks instance_of.memory_blocks) in
      elim (allocate_memory_cases (allocator p c) instance_of.memory_blocks layout.memory_fits) [
        | inr (h, lacks) ↦ inr (
            inr (
              ap (λ r. r.0) (ctx_valid ∙ ap (fill_ctx p instance_of) (initialize_fails _ h)),
              allocator-LacksMemory p c _ lacks,
            ))
        | inl h ↦
            let started = ctx_valid ∙ ap (fill_ctx p instance_of) (initialize_done hash _ e h) in
            elim (fill_memory_blocks-fill_memory_blocks_st p instance_of layout first) [
              | inr (inl (f, fails)) ↦ inr (
                  inl (
                    ap (λ r. r.0) (started ∙ ap (finish_ctx instance_of (cleared_context c)) f),
                    fails,
                  ))
              | inr (inr (f, lacks)) ↦ inr (
                  inr (
                    ap (λ r. r.0) (started ∙ ap (finish_ctx instance_of (cleared_context c)) f),
                    elim lacks [ inl a ↦ inr (inr (inl a)) | inr b ↦ inr (inr (inr b)) ],
                  ))
              | inl f ↦
                  let kept = cleared_context-KeepsOut c in
                  let zeros = replicate instance_of.memory_blocks zero_block in
                  let (tag, answer, n) =
                    tag-Answers hash size c.outlen (filled hash size zeros) valid.out_range.0
                      (omega (arith, valid.out_range.1))
                      (filled-IsShaped hash size zeros (zeros-IsShaped instance_of)) in
                  let out : finalize instance_of (cleared_context c).outlen
                        (fill_memory_blocks_st instance_of first)
                      ≡ some tag =
                    ap₂ (finalize instance_of) kept.1 (filled_same hash size) ∙ answer in
                  inl (
                    tag,
                    ap (tag_of instance_of c.outlen) e ∙ answer,
                    n,
                    tag-AreBytes c.outlen (filled hash size zeros) tag answer,
                    started
                        ∙ ap (finish_ctx instance_of (cleared_context c)) f
                        ∙ ap (λ o. (ok tt, write_tag o (cleared_context c))) out
                        ∙ ap (λ x. (ok tt, record (cleared_context c) { out = write_front tag x }))
                            kept.0,
                  )
            ]
      ]

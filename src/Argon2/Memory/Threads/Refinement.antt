-- ===== src/Argon2/Memory/Threads/Refinement.antt =====
-- The threads of `fill_memory_blocks` compute what one thread computes.
use security_core.Common.{
  ℕ, zero, suc, ◌+◌, ◌-◌, ◌≡◌, ◌≤◌, ◌<◌, refl, sym, ap, subst, ◌∙◌, ◌⊎◌, inl, inr, false, List, [],
  leb, ◌==◌, Bool-cases, if◌then◌else◌, Result, ok, err, ◌>>=◌, arith,
}
use security_core.Argon2.Types.{ErrorCode, thread_fail, memory_allocation_error}
use security_core.Argon2.Index.{Instance}
use security_core.Argon2.Index.Layout.{IsLayout}
use security_core.Argon2.Memory.Segment.{Memory}
use security_core.Argon2.Memory.Passes.{
  lanes_to, fill_slice, fill_slices, fill_passes, fill_memory_blocks_st,
}
use security_core.Argon2.Memory.Platform.{Platform, created, joined}
use security_core.Argon2.Memory.Threads.{
  Running, run_rounds, end_worker, join_thread, create_thread, create_threads, join_threads,
  start_running, fill_slice_mt, fill_slices_mt, fill_passes_mt, fill_memory_blocks_mt,
  fill_memory_blocks,
}
use security_core.Argon2.Memory.Threads.Invariant.{
  IsFilling, start_running-IsFilling, run_rounds-IsFilling, run_rounds-created,
  end_worker-IsFilling,
}
use security_core.Argon2.Memory.Threads.Slice.{
  AreDone, run_rounds-AreDone, end_worker-AreDone, fill_slice-IsFilling,
}

-- A call of the thread library that failed.
abbrev pub HasFailure : Platform → Type 0
HasFailure p =
    (r : ℕ) × (s : ℕ) × (l : ℕ) × ((p.thread_create r s l ≡ false) ⊎ (p.thread_join r s l ≡ false))

-- A result as wanted, or ARGON2_THREAD_FAIL for a call that failed.
abbrev pub Outcome {ℓ κ} :
    {A : Type ℓ} → Platform → (A → Type κ) → Result ErrorCode A → Type (ℓ ⊔ κ)
Outcome {A} p Q res = ((x : A) × (res ≡ ok x) × Q x) ⊎ ((res ≡ err thread_fail) × HasFailure p)

pub Outcome->>= {ℓ κ μ ν} :
    {A : Type ℓ} {B : Type κ} (p : Platform) (Q : A → Type μ) (R : B → Type ν)
    (res : Result ErrorCode A) (next : A → Result ErrorCode B)
    → Outcome p Q res
    → ((x : A) → Q x → Outcome p R (next x))
    → Outcome p R (res >>= next)
Outcome->>= p Q R res next (inl (x, e, q)) go =
    subst (λ t. Outcome p R (t >>= next)) (sym e) (go x q)
Outcome->>= p Q R res next (inr (e, f)) go = inr (ap (λ t. t >>= next) e, f)

module _ (p : Platform) (i : Instance) (layout : IsLayout i) where
  module _ (r s : ℕ) (slice : s < 4) (m0 : Memory) where
    -- `c` threads have been created, and the first `j` of them have ended.
    record IsAt (c j : ℕ) (run : Running) : Type 0 where
      pub filling : IsFilling i layout r s slice m0 run
      pub count : run.created ≡ c
      pub done : AreDone j run

    run_rounds-IsAt :
        (c j : ℕ) (lanes : List ℕ) (run : Running)
        → c ≤ i.lanes
        → IsAt c j run
        → IsAt c j (run_rounds i r s lanes run)
    run_rounds-IsAt c j lanes run low at = record {
      filling =
          run_rounds-IsFilling i layout r s slice m0 lanes run
            (subst (λ n. n ≤ i.lanes) (sym at.count) low) at.filling;
      count = run_rounds-created i layout r s slice m0 lanes run ∙ at.count;
      done = run_rounds-AreDone i r s j lanes run at.done;
    }

    join_thread-Outcome :
        (c j : ℕ) (run : Running)
        → c ≤ i.lanes
        → j < i.lanes
        → IsAt c j run
        → Outcome p (IsAt c (j + 1)) (join_thread p i r s j run)
    unfolding join_thread end_worker
    join_thread-Outcome c j run low lane at =
        let run' = run_rounds i r s (p.rounds r s (joined j)) run in
        let at' = run_rounds-IsAt c j (p.rounds r s (joined j)) run low at in
        elim (Bool-cases (p.thread_join r s j)) [
          | inl e ↦ inl (
            end_worker i r s j run',
            rw e refl,
            record {
              filling = end_worker-IsFilling i layout r s slice m0 j run' lane at'.filling;
              count = at'.count;
              done = end_worker-AreDone i r s j run' at'.done;
            },
          )
          | inr e ↦ inr (rw e refl, (r, s, j, inr e))
        ]

    create_thread-Outcome :
        (l j : ℕ) (run : Running)
        → l < i.lanes
        → IsAt l j run
        → Outcome p (IsAt (l + 1) j) (create_thread p i r s l run)
    unfolding create_thread
    create_thread-Outcome l j run low at =
        let run' = run_rounds i r s (p.rounds r s (created l)) run in
        let at' = run_rounds-IsAt l j (p.rounds r s (created l)) run (omega (arith, low)) at in
        let f = at'.filling in
        elim (Bool-cases (p.thread_create r s l)) [
          | inl e ↦ inl (
            record run' { created = l + 1 },
            rw e refl,
            record {
              filling = record {
                size = f.size;
                ready = f.ready;
                inside = f.inside;
                outside = f.outside;
              };
              count = refl;
              done = at'.done;
            },
          )
          | inr e ↦ inr (rw e refl, (r, s, l, inl e))
        ]

    -- A thread is joined before the lane `l` is started if the limit is reached.
    make_room-Outcome :
        (l : ℕ) (run : Running)
        → l < i.lanes
        → IsAt l (l - i.threads) run
        → Outcome p
            (IsAt l (l + 1 - i.threads))
            (if leb i.threads l then join_thread p i r s (l - i.threads) run else ok run)
    make_room-Outcome l run low at = elim (Bool-cases (leb i.threads l)) [
      | inl e ↦
          let few : i.threads ≤ l = ground (arith, e) in
          let n : l - i.threads + 1 ≡ l + 1 - i.threads = omega (arith, few) in
          rw e (
            subst (λ x. Outcome p (IsAt l x) (join_thread p i r s (l - i.threads) run)) n
              (join_thread-Outcome l (l - i.threads) run (omega (arith, low)) (omega (arith, low))
                at))
      | inr e ↦
          let many : l < i.threads = ground (arith, e) in
          let n : l - i.threads ≡ l + 1 - i.threads = omega (arith, many) in
          rw e (inl (run, refl, subst (λ x. IsAt l x run) n at))
    ]

    create_threads-Outcome :
        (count l : ℕ) (run : Running)
        → l + count ≡ i.lanes
        → IsAt l (l - i.threads) run
        → Outcome p (IsAt i.lanes (i.lanes - i.threads)) (create_threads p i r s count l run)
    unfolding create_threads
    create_threads-Outcome zero l run h at =
        let e : l ≡ i.lanes = omega (arith, h) in
        inl (run, refl, subst (λ x. IsAt x (x - i.threads) run) e at)
    create_threads-Outcome (suc count) l run h at =
        let low : l < i.lanes = omega (arith, h) in
        Outcome->>= p _ _ _ _ (make_room-Outcome l run low at) (λ run1 at1.
          Outcome->>= p _ _ _ _ (create_thread-Outcome l (l + 1 - i.threads) run1 low at1)
            (λ run2 at2. create_threads-Outcome count (l + 1) run2 (omega (arith, h)) at2))

    join_threads-Outcome :
        (count l : ℕ) (run : Running)
        → l + count ≡ i.lanes
        → IsAt i.lanes l run
        → Outcome p (IsAt i.lanes i.lanes) (join_threads p i r s count l run)
    unfolding join_threads
    join_threads-Outcome zero l run h at =
        let e : l ≡ i.lanes = omega (arith, h) in
        inl (run, refl, subst (λ x. IsAt i.lanes x run) e at)
    join_threads-Outcome (suc count) l run h at =
        Outcome->>= p _ _ _ _
          (join_thread-Outcome i.lanes l run (omega arith) (omega (arith, h)) at)
          (λ run1 at1. join_threads-Outcome count (l + 1) run1 (omega (arith, h)) at1)

    fill_slice_mt-Outcome :
        Outcome p (λ m. m ≡ fill_slice i r s (lanes_to i.lanes []) m0) (fill_slice_mt p i r s m0)
    unfolding fill_slice_mt
    fill_slice_mt-Outcome =
        let threads = layout.threads_range in
        let at0 : IsAt 0 (0 - i.threads) (start_running i r s m0) = record {
          filling = start_running-IsFilling i layout r s slice m0;
          count = refl;
          done = λ l h. absurd (omega (arith, h));
        } in
        Outcome->>= p _ _ _ _ (create_threads-Outcome i.lanes 0 _ (omega arith) at0) (λ run1 at1.
          Outcome->>= p _ _ _ _
            (join_threads-Outcome i.threads (i.lanes - i.threads) run1 (omega (arith, threads)) at1)
            (λ run2 at2. inl (
              run2.memory,
              refl,
              fill_slice-IsFilling i layout r s slice m0 run2 at2.filling at2.done,
            )))

  fill_slices_mt-Outcome :
      (r count s : ℕ) (m : Memory)
      → s + count ≤ 4
      → Outcome p (λ m'. m' ≡ fill_slices i r count s m) (fill_slices_mt p i r count s m)
  unfolding fill_slices_mt fill_slices
  fill_slices_mt-Outcome r zero s m h = inl (m, refl, refl)
  fill_slices_mt-Outcome r (suc count) s m h =
      Outcome->>= p _ _ _ _ (fill_slice_mt-Outcome r s (omega (arith, h)) m) (λ m1 e.
        subst
          (λ t.
            Outcome p (λ m'. m' ≡ fill_slices i r count (s + 1) t)
              (fill_slices_mt p i r count (s + 1) m1))
          e (fill_slices_mt-Outcome r count (s + 1) m1 (omega (arith, h))))

  fill_passes_mt-Outcome :
      (count r : ℕ) (m : Memory)
      → Outcome p (λ m'. m' ≡ fill_passes i count r m) (fill_passes_mt p i count r m)
  unfolding fill_passes_mt fill_passes
  fill_passes_mt-Outcome zero r m = inl (m, refl, refl)
  fill_passes_mt-Outcome (suc count) r m =
      Outcome->>= p _ _ _ _ (fill_slices_mt-Outcome r 4 0 m (omega arith)) (λ m1 e.
        subst
          (λ t.
            Outcome p (λ m'. m' ≡ fill_passes i count (r + 1) t)
              (fill_passes_mt p i count (r + 1) m1))
          e (fill_passes_mt-Outcome count (r + 1) m1))

  -- In whatever order the threads do the rounds of their loops, `fill_memory_blocks` leaves the memory
  -- that one thread leaves; it fails only with ARGON2_THREAD_FAIL if a call of the thread library has
  -- failed, or with ARGON2_MEMORY_ALLOCATION_ERROR if there is no memory for the threads.
  pub fill_memory_blocks-fill_memory_blocks_st :
      (m : Memory)
      → (fill_memory_blocks p i m ≡ ok (fill_memory_blocks_st i m))
        ⊎ ((fill_memory_blocks p i m ≡ err thread_fail) × HasFailure p)
        ⊎ ((fill_memory_blocks p i m ≡ err memory_allocation_error)
            × ((p.calloc_thread ≡ false) ⊎ (p.calloc_thr_data ≡ false)))
  unfolding fill_memory_blocks fill_memory_blocks_mt fill_memory_blocks_st
  fill_memory_blocks-fill_memory_blocks_st m =
      let pos : (i.lanes == 0) ≡ false = let low = layout.lanes_pos in ground (arith, low) in
      rw pos (elim (Bool-cases (i.threads == 1)) [
        | inl e ↦ rw e (inl refl)
        | inr e ↦ rw e (elim (Bool-cases p.calloc_thread) [
          | inr f ↦ inr (inr (rw f refl, inl f))
          | inl f ↦ elim (Bool-cases p.calloc_thr_data) [
            | inr g ↦ inr (inr (rw (f, g) refl, inr g))
            | inl g ↦
                rw (f, g)
                  (elim (fill_passes_mt-Outcome i.passes 0 m) [
                    | inl (m', h, same) ↦ inl (h ∙ ap (λ t. ok t) same)
                    | inr (h, fails) ↦ inr (inl (h, fails))
                  ])
          ]
        ])
      ])

-- ===== src/Argon2/Memory/Threads/Invariant.antt =====
-- What holds of a slice that is being filled by threads, after every round of any of them.
use security_core.Common.{
  ℕ, zero, suc, ◌+◌, ◌≡◌, ◌≢◌, ◌≤◌, ◌<◌, refl, sym, ap, subst, ◌∙◌, inl, inr, Bool, true, false,
  List, [], ◌∷◌, length, length-set, ltb, ◌==◌, ==_iff, Bool-cases, if◌then◌else◌, arith,
}
use security_core.Argon2.Index.{Instance, Position}
use security_core.Argon2.Index.Layout.{IsLayout}
use security_core.Argon2.Memory.Segment.{
  Memory, block_at, data_independent_addressing, fill_segment, fill_loop,
}
use security_core.Argon2.Memory.Segment.Place.{segment_start, IsOutside, At, At-next}
use security_core.Argon2.Memory.Segment.Local.{
  get_or-set, Agree, fill_loop-length, fill_loop-frame, fill_loop-Agree,
}
use security_core.Argon2.Memory.Segment.Order.{starting_index-first, At-start, room, segments_apart}
use security_core.Argon2.Memory.Passes.{start_of}
use security_core.Argon2.Memory.Threads.{
  Worker, start_worker, advance, finished, Running, updated, run_round, run_rounds, end_worker,
  start_running,
}

-- In the current segment of the position.
abbrev pub IsInside : Instance → Position → ℕ → Type 0
IsInside i p k = (segment_start i p ≤ k) × (k < segment_start i p + i.segment_length)

either {ℓ κ} :
    {A : Type ℓ} (b : Bool) (P : A → Type κ) (x y : A)
    → (b ≡ true → P x)
    → (b ≡ false → P y)
    → P (if b then x else y)
either true P x y f g = f refl
either false P x y f g = g refl

module _ (i : Instance) (layout : IsLayout i) (r s : ℕ) (slice : s < 4) where
  -- The offsets belong to the index, and the rounds that are left end with the segment.
  abbrev pub IsReady : (l : ℕ) → l < i.lanes → Worker → Type 0
  IsReady l lane w =
      (w.index + w.left ≤ i.segment_length)
      × (r ≡ 0 → s ≡ 0 → 2 ≤ w.index)
      × At i layout (start_of r s l) lane slice w.index w.curr w.prev

  start_worker-IsReady :
      (l : ℕ) (lane : l < i.lanes) → IsReady l lane (start_worker i (start_of r s l))
  unfolding start_worker
  start_worker-IsReady l lane = (
    room i layout (start_of r s l) lane slice,
    starting_index-first (start_of r s l),
    At-start i layout (start_of r s l) lane slice,
  )

  -- One round: the worker stays ready, the memory changes in the segment only, and what the memory
  -- will be at the end stays the same.
  advance_lem :
      (l : ℕ) (lane : l < i.lanes) (left : ℕ) (w : Worker) (m : Memory)
      → w.left ≡ left
      → IsReady l lane w
      → let p = start_of r s l in
        let next = advance i p left w m in
        IsReady l lane next.0
        × Agree i layout p m next.1
        × (finished i p next.0 next.1 ≡ finished i p w m)
  unfolding advance finished fill_loop
  advance_lem l lane zero w m e (fits, two, at) =
      let p = start_of r s l in
      let ind = data_independent_addressing i p in
      (
        (omega (arith, fits), two, at),
        (refl, λ k out. refl),
        ap (λ (n : ℕ). fill_loop i p ind n w.index w.curr w.prev w.addresses m) (sym e),
      )
  advance_lem l lane (suc left) w m e (fits, two, at) =
      let p = start_of r s l in
      let ind = data_independent_addressing i p in
      let place = at.place in
      (
        (
          omega (arith, fits, e),
          (λ a b. let z = two a b in omega (arith, z)),
          At-next i layout p lane slice w.index w.curr w.prev (omega (arith, fits, e)) at,
        ),
        (
          sym (length-set m w.curr _),
          λ k out. sym (
              get_or-set m k w.curr _ (λ z. elim out [
                | inl less ↦ absurd (omega (arith, less, z, place))
                | inr more ↦ absurd (omega (arith, more, z, place, fits, e))
              ])),
        ),
        ap (λ (n : ℕ). fill_loop i p ind n w.index w.curr w.prev w.addresses m) (sym e),
      )

  -- The same for all the rounds that are left.
  finished-Agree :
      (l : ℕ) (lane : l < i.lanes) (w : Worker) (m : Memory)
      → IsReady l lane w
      → Agree i layout (start_of r s l) m (finished i (start_of r s l) w m)
  unfolding finished
  finished-Agree l lane w m (fits, two, at) =
      let p = start_of r s l in
      let ind = data_independent_addressing i p in
      (
        sym (fill_loop-length i layout p lane slice ind w.left w.index w.curr w.prev w.addresses m),
        λ k out. sym (
            fill_loop-frame i layout p lane slice ind w.left w.index w.curr w.prev w.addresses m
              fits at k out),
      )

  -- What a thread does in its segment does not depend on what another one has done.
  finished_other :
      (l a : ℕ) (lane : l < i.lanes) (w : Worker) (m m' : Memory)
      → l ≢ a
      → IsReady l lane w
      → Agree i layout (start_of r s a) m m'
      → (k : ℕ) → IsInside i (start_of r s l) k
      → block_at (finished i (start_of r s l) w m') k ≡ block_at (finished i (start_of r s l) w m) k
  unfolding finished
  finished_other l a lane w m m' ne (fits, two, at) agree k (from, below) =
      let p = start_of r s l in
      let q = start_of r s a in
      let both =
        fill_loop-Agree i layout p lane slice (data_independent_addressing i p) q refl
          (λ z. ne (sym z)) w.left w.index w.curr w.prev w.addresses m m' fits two at agree in
      elim (segments_apart i layout p q slice refl (λ z. ne (sym z)) k) [
        | inl out ↦ elim out [
          | inl less ↦ absurd (omega (arith, less, from))
          | inr more ↦ absurd (omega (arith, more, below))
        ]
        | inr out ↦ sym (both.1 k out)
      ]

  module _ (m0 : Memory) where
    -- When all rounds are done each segment will be as if its lane alone had filled it.
    pub record IsFilling (run : Running) : Type 0 where
      pub size : length run.memory ≡ length m0
      pub ready : (l : ℕ) (lane : l < i.lanes) → IsReady l lane (run.workers l)
      pub inside :
          (l : ℕ)
          → l < i.lanes
          → (k : ℕ) → IsInside i (start_of r s l) k
          → block_at (finished i (start_of r s l) (run.workers l) run.memory) k
            ≡ block_at (fill_segment i (start_of r s l) m0) k
      pub outside :
          (k : ℕ)
          → ((l : ℕ) → l < i.lanes → IsOutside i (start_of r s l) k)
          → block_at run.memory k ≡ block_at m0 k

    pub start_running-IsFilling : IsFilling (start_running i r s m0)
    unfolding start_worker finished fill_segment
    start_running-IsFilling = record {
      size = refl;
      ready = start_worker-IsReady;
      inside = λ l lane k h. refl;
      outside = λ k h. refl;
    }

    -- One lane goes on.
    pub IsFilling-updated :
        (run : Running) (a : ℕ) (lane : a < i.lanes) (w : Worker) (m : Memory)
        → IsFilling run
        → ((lane : a < i.lanes) → IsReady a lane w)
        → Agree i layout (start_of r s a) run.memory m
        → finished i (start_of r s a) w m ≡ finished i (start_of r s a) (run.workers a) run.memory
        → IsFilling (record run { memory = m; workers = updated run.workers a w })
    IsFilling-updated run a lane w m h ready agree same = record {
      size = sym agree.0 ∙ h.size;
      ready = λ l.
          either (l == a) (λ v. (lane_l : l < i.lanes) → IsReady l lane_l v) w (run.workers l)
            (λ e.
              subst (λ x. (lane_x : x < i.lanes) → IsReady x lane_x w) (sym ((==_iff l a).0 e))
                ready)
            (λ e. h.ready l);
      inside = λ l lane_l k at.
          let now = λ (v : Worker).
            block_at (finished i (start_of r s l) v m) k
            ≡ block_at (fill_segment i (start_of r s l) m0) k in
          either (l == a) now w (run.workers l)
            (λ e.
              let same_l =
                subst
                  (λ (x : ℕ).
                    finished i (start_of r s x) w m
                    ≡ finished i (start_of r s x) (run.workers x) run.memory)
                  (sym ((==_iff l a).0 e)) same in
              ap (λ x. block_at x k) same_l ∙ h.inside l lane_l k at)
            (λ e.
              let ne : l ≢ a = λ z. let f = (==_iff l a).1 z in cc (f, e) in
              finished_other l a lane_l (run.workers l) run.memory m ne (h.ready l lane_l) agree k
                at
              ∙ h.inside l lane_l k at);
      outside = λ k out. sym (agree.1 k (out a lane)) ∙ h.outside k out;
    }

    run_round-IsFilling :
        (l : ℕ) (run : Running)
        → run.created ≤ i.lanes
        → IsFilling run
        → IsFilling (run_round i r s l run)
    unfolding run_round
    run_round-IsFilling l run few h =
        let w = run.workers l in
        let next = advance i (start_of r s l) w.left w run.memory in
        let after = record run { memory = next.1; workers = updated run.workers l next.0 } in
        either (ltb l run.created) IsFilling after run
          (λ e.
            let lane : l < i.lanes = ground (arith, e, few) in
            let (ready, agree, same) =
              advance_lem l lane w.left w run.memory refl (h.ready l lane) in
            IsFilling-updated run l lane next.0 next.1 h
              (λ lane'. (advance_lem l lane' w.left w run.memory refl (h.ready l lane')).0) agree
              same)
          (λ e. h)

    run_round-created : (l : ℕ) (run : Running) → (run_round i r s l run).created ≡ run.created
    unfolding run_round
    run_round-created l run = elim (Bool-cases (ltb l run.created)) [
      | inl e ↦ rw e refl
      | inr e ↦ rw e refl
    ]

    pub run_rounds-IsFilling :
        (lanes : List ℕ) (run : Running)
        → run.created ≤ i.lanes
        → IsFilling run
        → IsFilling (run_rounds i r s lanes run)
    unfolding run_rounds
    run_rounds-IsFilling [] run few h = h
    run_rounds-IsFilling (l ∷ lanes) run few h =
        run_rounds-IsFilling lanes (run_round i r s l run)
          (subst (λ n. n ≤ i.lanes) (sym (run_round-created l run)) few)
          (run_round-IsFilling l run few h)

    pub run_rounds-created :
        (lanes : List ℕ) (run : Running) → (run_rounds i r s lanes run).created ≡ run.created
    unfolding run_rounds
    run_rounds-created [] run = refl
    run_rounds-created (l ∷ lanes) run =
        run_rounds-created lanes (run_round i r s l run) ∙ run_round-created l run

    pub end_worker-IsFilling :
        (l : ℕ) (run : Running) → l < i.lanes → IsFilling run → IsFilling (end_worker i r s l run)
    unfolding end_worker
    end_worker-IsFilling l run lane h =
        let w = run.workers l in
        IsFilling-updated run l lane (record w { left = 0 })
          (finished i (start_of r s l) w run.memory) h
          (λ lane'. let (fits, two, at) = h.ready l lane' in (omega (arith, fits), two, at))
          (finished-Agree l lane w run.memory (h.ready l lane)) (unfold finished fill_loop in refl)

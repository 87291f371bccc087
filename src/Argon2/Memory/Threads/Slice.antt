-- ===== src/Argon2/Memory/Threads/Slice.antt =====
-- A whole slice, filled by threads or lane by lane.
use security_core.Common.{
  ℕ, zero, suc, ◌+◌, ◌≡◌, ◌≤◌, ◌<◌, refl, sym, ap, subst, ◌∙◌, ◌⊎◌, inl, inr, List, [], ◌∷◌,
  lt_or_le, ltb, ◌==◌, ==_iff, ne→==, Bool-cases, arith,
}
use security_core.Argon2.Index.{Instance}
use security_core.Argon2.Index.Layout.{IsLayout}
use security_core.Argon2.Memory.Segment.{
  Memory, block_at, fill_segment, fill_loop, data_independent_addressing,
}
use security_core.Argon2.Memory.Segment.Place.{segment_start, IsOutside}
use security_core.Argon2.Memory.Segment.Local.{extensional}
use security_core.Argon2.Memory.Passes.{start_of, lanes_to, fill_slice}
use security_core.Argon2.Memory.Threads.{
  Worker, start_worker, advance, finished, Running, run_round, run_rounds, end_worker,
  start_running,
}
use security_core.Argon2.Memory.Threads.Invariant.{
  IsInside, IsFilling, start_running-IsFilling, end_worker-IsFilling,
}

left-run_round :
    (i : Instance) (r s l k : ℕ) (run : Running)
    → (run.workers k).left ≡ 0
    → ((run_round i r s l run).workers k).left ≡ 0
unfolding run_round advance
left-run_round i r s l k run h = elim (Bool-cases (ltb l run.created)) [
  | inr e ↦ rw e h
  | inl e ↦ elim (Bool-cases (k == l)) [
    | inr f ↦ rw (e, f) h
    | inl f ↦
        let same : (run.workers l).left ≡ 0 =
          ap (λ x. (run.workers x).left) (sym ((==_iff k l).0 f)) ∙ h in
        rw (e, f)
          (ap (λ (n : ℕ). (advance i (start_of r s l) n (run.workers l) run.memory).0.left) same)
  ]
]

-- The threads of the first lanes have ended.
abbrev pub AreDone : ℕ → Running → Type 0
AreDone j run = (l : ℕ) → l < j → (run.workers l).left ≡ 0

pub run_rounds-AreDone :
    (i : Instance) (r s j : ℕ) (lanes : List ℕ) (run : Running)
    → AreDone j run
    → AreDone j (run_rounds i r s lanes run)
unfolding run_rounds
run_rounds-AreDone i r s j [] run h = h
run_rounds-AreDone i r s j (l ∷ lanes) run h =
    run_rounds-AreDone i r s j lanes (run_round i r s l run)
      (λ k low. left-run_round i r s l k run (h k low))

-- One more has ended.
pub end_worker-AreDone :
    (i : Instance) (r s j : ℕ) (run : Running)
    → AreDone j run
    → AreDone (j + 1) (end_worker i r s j run)
unfolding end_worker
end_worker-AreDone i r s j run h l low = elim (Bool-cases (l == j)) [
  | inl e ↦ rw e refl
  | inr e ↦ rw e (
      h l (elim (lt_or_le l j) [
        | inl less ↦ less
        | inr more ↦ let f = (==_iff l j).1 (omega (arith, low, more)) in cc (e, f)
      ]))
]

module _ (i : Instance) (layout : IsLayout i) (r s : ℕ) (slice : s < 4) (m0 : Memory) where
  -- A place is in the segment of a lane or in that of none.
  locate :
      (n k : ℕ)
      → ((l : ℕ) × (l < n) × IsInside i (start_of r s l) k)
        ⊎ ((l : ℕ) → l < n → IsOutside i (start_of r s l) k)
  locate zero k = inr (λ l h. absurd (omega (arith, h)))
  locate (suc n) k = elim (locate n k) [
    | inl (l, low, at) ↦ inl (l, omega (arith, low), at)
    | inr none_before ↦
        let p = start_of r s n in
        let last : IsOutside i p k → (l : ℕ) → l < suc n → IsOutside i (start_of r s l) k =
          λ out l h. elim (lt_or_le l n) [
            | inl less ↦ none_before l less
            | inr more ↦ subst (λ x. IsOutside i (start_of r s x) k) (omega (arith, h, more)) out
          ] in
        elim (lt_or_le k (segment_start i p)) [
          | inl less ↦ inr (last (inl less))
          | inr from ↦ elim (lt_or_le k (segment_start i p + i.segment_length)) [
            | inl below ↦ inl (n, omega arith, (from, below))
            | inr behind ↦ inr (last (inr behind))
          ]
        ]
  ]

  -- Once all lanes are done the memory is determined.
  pub filled_unique :
      (run run' : Running)
      → IsFilling i layout r s slice m0 run
      → IsFilling i layout r s slice m0 run'
      → AreDone i.lanes run
      → AreDone i.lanes run'
      → run.memory ≡ run'.memory
  unfolding finished fill_loop
  filled_unique run run' h h' done done' =
      extensional run.memory run'.memory (h.size ∙ sym h'.size) (λ k. elim (locate i.lanes k) [
        | inl (l, low, at) ↦
            let still : (t : Running)
                → (t.workers l).left ≡ 0
                → finished i (start_of r s l) (t.workers l) t.memory ≡ t.memory =
              λ t e.
                let p = start_of r s l in
                let w = t.workers l in
                ap
                  (λ (n : ℕ).
                    fill_loop i p (data_independent_addressing i p) n w.index w.curr w.prev
                      w.addresses t.memory)
                  e in
            ap (λ x. block_at x k) (sym (still run (done l low)))
            ∙ h.inside l low k at
            ∙ sym (h'.inside l low k at)
            ∙ ap (λ x. block_at x k) (still run' (done' l low))
        | inr out ↦ h.outside k out ∙ sym (h'.outside k out)
      ])

  -- The lanes below `n`, one after the other.
  abbrev in_turn : ℕ → Running
  in_turn zero = start_running i r s m0
  in_turn (suc n) = end_worker i r s n (in_turn n)

  in_turn-IsFilling : (n : ℕ) → n ≤ i.lanes → IsFilling i layout r s slice m0 (in_turn n)
  in_turn-IsFilling zero h = start_running-IsFilling i layout r s slice m0
  in_turn-IsFilling (suc n) h =
      end_worker-IsFilling i layout r s slice m0 n (in_turn n) (omega (arith, h))
        (in_turn-IsFilling n (omega (arith, h)))

  in_turn-AreDone : (n : ℕ) → AreDone n (in_turn n)
  in_turn-AreDone zero l h = absurd (omega (arith, h))
  in_turn-AreDone (suc n) l h =
      end_worker-AreDone i r s n (in_turn n) (in_turn-AreDone n) l (omega (arith, h))

  in_turn-later : (n l : ℕ) → n ≤ l → (in_turn n).workers l ≡ start_worker i (start_of r s l)
  unfolding end_worker
  in_turn-later zero l h = refl
  in_turn-later (suc n) l h =
      rw (ne→== l n (λ e. omega (arith, e, h))) (in_turn-later n l (omega (arith, h)))

  fill_slice-lanes_to :
      (n : ℕ) (rest : List ℕ)
      → fill_slice i r s (lanes_to n rest) m0 ≡ fill_slice i r s rest (in_turn n).memory
  unfolding fill_slice end_worker
  fill_slice-lanes_to zero rest = refl
  fill_slice-lanes_to (suc n) rest =
      fill_slice-lanes_to n (n ∷ rest)
      ∙ ap (fill_slice i r s rest) (
          unfold finished start_worker fill_segment in
          ap (λ (w : Worker). finished i (start_of r s n) w (in_turn n).memory)
            (sym (in_turn-later n n (omega arith))))

  -- A slice that all lanes are done with has the memory that the lanes leave one after the other.
  pub fill_slice-IsFilling :
      (run : Running)
      → IsFilling i layout r s slice m0 run
      → AreDone i.lanes run
      → run.memory ≡ fill_slice i r s (lanes_to i.lanes []) m0
  unfolding fill_slice
  fill_slice-IsFilling run h done =
      filled_unique run (in_turn i.lanes) h (in_turn-IsFilling i.lanes (omega arith)) done
        (in_turn-AreDone i.lanes)
      ∙ sym (fill_slice-lanes_to i.lanes [])

-- ===== src/Argon2/Blake2b/Stream/Chunks.antt =====
-- Calls of `blake2b_update` one after another.
use security_core.Common.{
  ℕ, suc, ◌≡◌, refl, sym, ap, subst, ◌∙◌, Bool, true, false, some, List, [], ◌∷◌, ◌++◌, append-nil,
  append_assoc, Bytes, length, take, take-all, ◌==◌, if◌then◌else◌, arith,
}
use security_core.Argon2.Blake2b.Compress.{State}
use security_core.Argon2.Blake2b.Stream.{update_bytes, blake2b_update}
use security_core.Argon2.Blake2b.Stream.Loop.{
  erased, pending, IsReady, absorb_loop-done, stream, stream-stream,
}
use security_core.Argon2.Blake2b.Stream.Update.{
  meaning, length-pending, Streams, update_bytes-Streams,
}

-- Nothing to absorb: the call is an early return.
pub empty-Streams : (s : State) → IsReady s → Streams s [] s
unfolding Streams
empty-Streams s r =
    let p = pending s in
    (
      sym (
          ap (stream (erased s)) (append-nil p)
          ∙ absorb_loop-done (length p) (erased s) p
              (omega (arith, length-pending s r, r.buflen_range))),
      r,
    )

-- A call of `blake2b_update` on all of a buffer.
abbrev pub fed : State → Bytes → State
fed s x = (blake2b_update s (some x) (length x)).0

blake2b_update-update_bytes :
    (s : State) (b : ℕ) (x : Bytes)
    → s.f0 ≡ 0
    → blake2b_update s (some (b ∷ x)) (length (b ∷ x)) ≡ (update_bytes s (b ∷ x), true)
unfolding blake2b_update
blake2b_update-update_bytes s b x h =
    let all = take (length (b ∷ x)) (b ∷ x) in
    let nonempty : (suc (length x) == 0) ≡ false = ground arith in
    let guarded : ℕ → State × Bool =
      λ f. if f == 0 then (update_bytes s all, true) else (s, false) in
    let tested : Bool → State × Bool = λ e. if e then (s, true) else guarded s.f0 in
    ap tested nonempty
    ∙ ap guarded h
    ∙ ap (λ t. (update_bytes s t, true)) (take-all (length (b ∷ x)) (b ∷ x) (omega arith))

-- Updates of a state that is not final answer 0.
pub fed-true :
    (s : State) (x : Bytes) → s.f0 ≡ 0 → blake2b_update s (some x) (length x) ≡ (fed s x, true)
unfolding blake2b_update
fed-true s [] h = refl
fed-true s (b ∷ x) h =
    let e = blake2b_update-update_bytes s b x h in e ∙ ap (λ r. (r.0, true)) (sym e)

pub fed-Streams : (s : State) (x : Bytes) → IsReady s → Streams s x (fed s x)
unfolding blake2b_update
fed-Streams s [] r = empty-Streams s r
fed-Streams s (b ∷ x) r =
    subst (Streams s (b ∷ x)) (sym (ap (λ t. t.0) (blake2b_update-update_bytes s b x r.not_final)))
      (update_bytes-Streams s (b ∷ x) r)

Streams-trans :
    (s s' s'' : State) (x y : Bytes) → Streams s x s' → Streams s' y s'' → Streams s (x ++ y) s''
unfolding Streams
Streams-trans s s' s'' x y first second =
    let p = pending s in
    (
      second.0
          ∙ ap (λ m. stream m.0 (m.1 ++ y)) first.0
          ∙ stream-stream (length (p ++ x)) (erased s) (p ++ x) y (omega arith)
          ∙ ap (stream (erased s)) (append_assoc p x y),
      second.1,
    )

-- The chunks of an input in their order.
abbrev pub fed_all : State → List Bytes → State
fed_all s [] = s
fed_all s (x ∷ xs) = fed_all (fed s x) xs

abbrev pub joined : List Bytes → Bytes
joined [] = []
joined (x ∷ xs) = x ++ joined xs

fed_all-Streams : (s : State) (xs : List Bytes) → IsReady s → Streams s (joined xs) (fed_all s xs)
unfolding Streams
fed_all-Streams s [] r = empty-Streams s r
fed_all-Streams s (x ∷ xs) r =
    let first = fed-Streams s x r in
    Streams-trans s (fed s x) _ x (joined xs) first (fed_all-Streams (fed s x) xs first.1)

-- The chunks and the whole input leave the same state but for unused bytes of the buffer.
pub meaning-fed_all :
    (s : State) (xs : List Bytes)
    → IsReady s
    → (meaning (fed_all s xs) ≡ meaning (fed s (joined xs)))
      × (IsReady (fed_all s xs) × IsReady (fed s (joined xs)))
unfolding Streams
meaning-fed_all s xs r =
    let cut = fed_all-Streams s xs r in
    let whole = fed-Streams s (joined xs) r in (cut.0 ∙ sym whole.0, (cut.1, whole.1))

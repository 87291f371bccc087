-- ===== src/Argon2/Blake2b/Stream/Update.antt =====
-- `update_bytes` against the absorption of all bytes at once.
use security_core.Common.{
  ◌+◌, ◌-◌, ◌≤◌, ◌<◌, ◌≡◌, refl, sym, ap, ap₂, ◌∙◌, inl, inr, [], ◌++◌, append-nil, Bytes, length,
  length-append, length-take, length-drop, take, drop, take-append, take-all, take-append_more,
  drop-append_more, lt_or_le, lt→ltb, le→ltb, arith, u32,
}
use security_core.Argon2.Blake2b.Compress.{State, blake2b_compress, blake2b_increment_counter}
use security_core.Argon2.Blake2b.Stream.{
  write_at, absorb_block, absorb_loop, keep_rest, complete_block, update_bytes,
}
use security_core.Argon2.Blake2b.Stream.Loop.{
  with_buf, erased, pending, IsReady, absorb_loop-done, absorb_loop-with_buf, absorb_loop_short,
  stream, stream-more,
}

-- What a state means: its other fields, and the bytes that wait.
abbrev pub meaning : State → State × Bytes
meaning s = (erased s, pending s)

pub length-pending : (s : State) → IsReady s → length (pending s) ≡ s.buflen
length-pending s r = omega (arith, length-take s.buflen s.buf, r.buf_128, r.buflen_range)

pending-keep_rest :
    (s : State) (x : Bytes)
    → length s.buf ≡ 128
    → s.buflen + length x ≤ 128
    → pending (keep_rest (s, x)) ≡ pending s ++ x
unfolding keep_rest
pending-keep_rest s x h fits =
    let narrow : u32 (s.buflen + length x) ≡ s.buflen + length x = omega arith in
    let old = take s.buflen s.buf in
    let tail = drop (s.buflen + length x) s.buf in
    let n : length old ≡ s.buflen = omega (arith, length-take s.buflen s.buf) in
    ap (λ k. take k (old ++ (x ++ tail))) narrow
    ∙ take-append_more old (x ++ tail) _ (length x) (ap (λ k. k + length x) (sym n))
    ∙ ap (λ t. old ++ t) (take-append x tail (length x) refl)

keep_rest-IsReady :
    (s : State) (x : Bytes)
    → s.f0 ≡ 0
    → length s.buf ≡ 128
    → s.buflen + length x ≤ 128
    → IsReady (keep_rest (s, x))
unfolding keep_rest
keep_rest-IsReady s x f h fits =
    let old = take s.buflen s.buf in
    let tail = drop (s.buflen + length x) s.buf in
    record {
      not_final = f;
      buf_128 = omega (
        arith,
        length-append old (x ++ tail),
        length-append x tail,
        length-take s.buflen s.buf,
        length-drop (s.buflen + length x) s.buf,
      );
      buflen_range = omega arith;
    }

-- The completed block is the front of the pending bytes with the input behind them.
full_block :
    (s : State) (x : Bytes)
    → IsReady s
    → 128 < s.buflen + length x
    → write_at s.buflen (take (128 - s.buflen) x) s.buf ≡ take 128 (pending s ++ x)
full_block s x r h =
    let fill = 128 - s.buflen in
    let end = s.buflen + length (take fill x) in
    let none_left : length (drop end s.buf) ≡ 0 =
      omega (arith, length-drop end s.buf, length-take fill x, r.buf_128, r.buflen_range) in
    let front = take fill x in
    ap (λ d. pending s ++ (front ++ d)) (sym (take-all 0 (drop end s.buf) (omega arith)))
    ∙ ap (λ d. pending s ++ d) (append-nil front)
    ∙ sym (
        take-append_more (pending s) x 128 fill (omega (arith, length-pending s r, r.buflen_range)))

block_rest :
    (s : State) (x : Bytes)
    → IsReady s
    → 128 < s.buflen + length x
    → drop (128 - s.buflen) x ≡ drop 128 (pending s ++ x)
block_rest s x r h = sym (
    drop-append_more (pending s) x 128 (128 - s.buflen)
      (omega (arith, length-pending s r, r.buflen_range)))

-- After `complete_block` the buffer has been used up.
complete_block_lem :
    (s : State) (x : Bytes)
    → IsReady s
    → 128 < s.buflen + length x
    → let r = stream (erased s) (pending s ++ x) in
      complete_block s x ≡ (with_buf (take 128 (pending s ++ x)) 0 r.0, r.1)
unfolding complete_block absorb_block blake2b_compress blake2b_increment_counter
complete_block_lem s x r h =
    let e = erased s in
    let all = pending s ++ x in
    let longer : 128 < length all =
      omega (arith, length-append (pending s) x, length-pending s r) in
    ap₂ (λ b d. absorb_loop (length d) (with_buf b 0 (absorb_block e b)) d) (full_block s x r h)
      (block_rest s x r h)
    ∙ absorb_loop-with_buf (length (drop 128 all)) (take 128 all) 0 (absorb_block e (take 128 all))
        (drop 128 all)
    ∙ ap (λ t. (with_buf (take 128 all) 0 t.0, t.1)) (sym (stream-more e all longer))

update_bytes-more :
    (s : State) (x : Bytes)
    → 128 < s.buflen + length x
    → update_bytes s x ≡ keep_rest (complete_block s x)
unfolding update_bytes
update_bytes-more s x h = rw (lt→ltb 128 (s.buflen + length x) h)

update_bytes-done :
    (s : State) (x : Bytes) → s.buflen + length x ≤ 128 → update_bytes s x ≡ keep_rest (s, x)
unfolding update_bytes
update_bytes-done s x h = rw (le→ltb 128 (s.buflen + length x) h)

meaning-keep_rest :
    (s : State) (x : Bytes)
    → length s.buf ≡ 128
    → s.buflen + length x ≤ 128
    → meaning (keep_rest (s, x)) ≡ (erased s, pending s ++ x)
unfolding keep_rest
meaning-keep_rest s x h fits = ap (λ t. (erased s, t)) (pending-keep_rest s x h fits)

-- An update streams the bytes that wait and the input behind them, and the state stays ready.
unfoldable pub Streams : State → Bytes → State → Type 0
Streams s x s' = (meaning s' ≡ stream (erased s) (pending s ++ x)) × IsReady s'

keep_rest-Streams :
    (s : State) (x : Bytes)
    → IsReady s
    → 128 < s.buflen + length x
    → let r = stream (erased s) (pending s ++ x) in
      Streams s x (keep_rest (with_buf (take 128 (pending s ++ x)) 0 r.0, r.1))
unfolding Streams
keep_rest-Streams s x ready h =
    let all = pending s ++ x in
    let r = stream (erased s) all in
    let ends = absorb_loop_short (length all) (erased s) all (omega arith) in
    let full : length (take 128 all) ≡ 128 =
      omega (arith, length-take 128 all, length-append (pending s) x, length-pending s ready) in
    let room : 0 + length r.1 ≤ 128 = omega (arith, ends.0) in
    let s' = with_buf (take 128 all) 0 r.0 in
    (
      meaning-keep_rest s' r.1 full room
          ∙ sym (absorb_loop-with_buf (length all) [] 0 (erased s) all),
      keep_rest-IsReady s' r.1 (ends.1 ∙ ready.not_final) full room,
    )

pub update_bytes-Streams : (s : State) (x : Bytes) → IsReady s → Streams s x (update_bytes s x)
unfolding Streams
update_bytes-Streams s x r = elim (lt_or_le 128 (s.buflen + length x)) [
  | inl more ↦
      rw (update_bytes-more s x more, complete_block_lem s x r more) (keep_rest-Streams s x r more)
  | inr done ↦
      let all = pending s ++ x in
      let short : length all ≤ 128 =
        omega (arith, length-append (pending s) x, length-pending s r) in
      rw (update_bytes-done s x done) (
        meaning-keep_rest s x r.buf_128 done
            ∙ sym (absorb_loop-done (length all) (erased s) all short),
        keep_rest-IsReady s x r.not_final r.buf_128 done,
      )
]

-- ===== src/Argon2/Blake2b/Stream.antt =====
-- The streaming interface of blake2b.c: `blake2b_init`, `blake2b_init_key`, `blake2b_update` and
-- `blake2b_final`. The state is never NULL; an input or key pointer is an `Option`.
-- FLAG_clear_internal_memory is 1, so that clearing writes zeros.
pub mod Loop
pub mod Update
pub mod Chunks
pub mod Final
use security_core.Common.{
  ℕ, zero, suc, ◌+◌, ◌-◌, ◌*◌, ◌^◌, Bool, true, false, ◌||◌, not, Option, none, some, List, [], ◌∷◌,
  ◌++◌, Bytes, length, take, drop, replicate, ltb, leb, get_or, ◌==◌, if◌then◌else◌, u8, u32, u64,
}
use security_core.Argon2.Blake2b.Word.{load64, store64}
use security_core.Argon2.Blake2b.Compress.{
  State, block_bytes, out_bytes, key_bytes, blake2b_iv, xor_words, load_words, blake2b_compress,
  blake2b_increment_counter,
}

abbrev pub word_max : ℕ
word_max = 2 ^ 64 - 1

pub blake2b_set_lastnode : State → State
blake2b_set_lastnode s = record s { f1 = word_max }

unfoldable pub blake2b_set_lastblock : State → State
unfolding blake2b_set_lastnode
blake2b_set_lastblock s =
    let s' = if s.last_node == 0 then s else blake2b_set_lastnode s in record s' { f0 = word_max }

-- All bytes of the structure are zero.
abbrev pub cleared : State
cleared = record {
  h = replicate 8 0;
  t0 = 0;
  t1 = 0;
  f0 = 0;
  f1 = 0;
  buf = replicate 128 0;
  buflen = 0;
  outlen = 0;
  last_node = 0;
}

unfoldable pub blake2b_invalidate_state : State → State
unfolding blake2b_set_lastblock
blake2b_invalidate_state s = blake2b_set_lastblock cleared

unfoldable pub blake2b_init0 : State
blake2b_init0 = record cleared { h = blake2b_iv }

-- The 64 bytes of the packed parameter block; fanout and depth are 1, all else is 0.
unfoldable pub param_block : ℕ → ℕ → Bytes
param_block digest_length key_length = digest_length ∷ key_length ∷ 1 ∷ 1 ∷ replicate 60 0

-- P->digest_length is the first byte.
unfoldable pub blake2b_init_param : Bytes → State
unfolding blake2b_init0 blake2b_iv xor_words load_words
blake2b_init_param p = record blake2b_init0 {
  h = xor_words blake2b_iv (load_words 8 0 p);
  outlen = get_or p 0 0;
}

unfoldable pub blake2b_init : State → ℕ → State × Bool
unfolding blake2b_invalidate_state blake2b_init_param param_block
blake2b_init s outlen =
    if (outlen == 0) || ltb out_bytes outlen
    then (blake2b_invalidate_state s, false)
    else (blake2b_init_param (param_block (u8 outlen) 0), true)

-- memcpy(&buf[i], new, …)
abbrev pub write_at : ℕ → Bytes → Bytes → Bytes
write_at i new old = take i old ++ (new ++ drop (i + length new) old)

-- One full block: the counter and the compression.
unfoldable pub absorb_block : State → Bytes → State
absorb_block s block = blake2b_compress (blake2b_increment_counter s block_bytes) block

-- `while (inlen > BLAKE2B_BLOCKBYTES)`: the state, and the input that is left. Each round takes
-- 128 bytes, so that the length of the input is enough fuel.
unfoldable pub absorb_loop : ℕ → State → Bytes → State × Bytes
absorb_loop zero s pin = (s, pin)
absorb_loop (suc fuel) s pin =
    let more = absorb_loop fuel (absorb_block s (take block_bytes pin)) (drop block_bytes pin) in
    if ltb block_bytes (length pin) then more else (s, pin)

-- memcpy(&S->buf[S->buflen], pin, inlen); S->buflen += inlen;
unfoldable pub keep_rest : State × Bytes → State
keep_rest (s, pin) = record s {
  buf = write_at s.buflen pin s.buf;
  buflen = u32 (s.buflen + length pin);
}

-- "Complete current block."
pub complete_block : State → Bytes → State × Bytes
complete_block s pin =
    let fill = block_bytes - s.buflen in
    let s1 = record s { buf = write_at s.buflen (take fill pin) s.buf } in
    let s2 = absorb_block s1 s1.buf in
    let rest = drop fill pin in absorb_loop (length rest) (record s2 { buflen = 0 }) rest

-- From the third test on.
unfoldable pub update_bytes : State → Bytes → State
update_bytes s pin =
    if ltb block_bytes (s.buflen + length pin)
    then keep_rest (complete_block s pin)
    else keep_rest (s, pin)

abbrev pub update_at : State → Option Bytes → ℕ → State × Bool
update_at s none inlen = (s, false)
update_at s (some input) inlen =
    if s.f0 == 0 then (update_bytes s (take inlen input), true) else (s, false)

unfoldable pub blake2b_update : State → Option Bytes → ℕ → State × Bool
blake2b_update s input inlen = if inlen == 0 then (s, true) else update_at s input inlen

unfoldable pub store_words : List ℕ → Bytes
store_words [] = []
store_words (w ∷ ws) = store64 w ++ store_words ws

-- The padded last block; what follows in the structure and in the output is cleared.
unfoldable pub last_block : State → State
last_block s =
    let s1 = blake2b_set_lastblock (blake2b_increment_counter s s.buflen) in
    let s2 = record s1 { buf = take s1.buflen s1.buf ++ replicate (block_bytes - s1.buflen) 0 } in
    blake2b_compress s2 s2.buf

-- `none` is -1; a success gives the bytes that are written to `out`, which is not NULL.
unfoldable pub blake2b_final : State → ℕ → State × Option Bytes
blake2b_final s outlen =
    if ltb outlen s.outlen || not (s.f0 == 0)
    then (s, none)
    else (let s' = last_block s in
        (
          record s' { buf = replicate 128 0; h = replicate 8 0 },
          some (take s'.outlen (store_words s'.h)),
        ))

abbrev pub key_at : Option Bytes → ℕ → Bytes
key_at none keylen = []
key_at (some key) keylen = take keylen key

abbrev is_null : Option Bytes → Bool
is_null none = true
is_null (some b) = false

-- The result of the inner `blake2b_update` is not looked at.
pub blake2b_init_key : State → ℕ → Option Bytes → ℕ → State × Bool
blake2b_init_key s outlen key keylen =
    if (outlen == 0) || ltb out_bytes outlen
    then (blake2b_invalidate_state s, false)
    else if is_null key || ((keylen == 0) || ltb key_bytes keylen)
    then (blake2b_invalidate_state s, false)
    else (let s' = blake2b_init_param (param_block (u8 outlen) (u8 keylen)) in
        let block = key_at key keylen ++ replicate (block_bytes - keylen) 0 in
        ((blake2b_update s' (some block) block_bytes).0, true))

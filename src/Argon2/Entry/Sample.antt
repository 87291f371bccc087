-- ===== src/Argon2/Entry/Sample.antt =====
-- Platforms for the examples. On the first one the threads take turns, and memory is not empty.
use security_core.Common.{
  ◌≡◌, refl, inl, inr, true, false, [], ◌∷◌, length, length-replicate, All-replicate, replicate,
}
use security_core.Argon2.Validate.Tests.{sample}
use security_core.Argon2.Memory.Platform.{Platform}
use security_core.Argon2.Entry.{Outcome}
use security_core.Argon2.Entry.Tag.{IsPlatform, Fails}

abbrev pub turns : Platform
turns = record {
  malloc = λ q n. true;
  garbage = λ q n. replicate n 7;
  allocate_cbk = λ n. true;
  garbage_blocks = λ n. replicate n (replicate 128 9);
  garbage_hash = replicate 64 3;
  garbage_context = sample;
  calloc_thread = true;
  calloc_thr_data = true;
  thread_create = λ r s l. true;
  thread_join = λ r s l. true;
  rounds = λ r s call. 1 ∷ 0 ∷ 0 ∷ 1 ∷ [];
}

pub turns-IsPlatform : IsPlatform turns
turns-IsPlatform = record {
  buffers = λ q n. length-replicate n 7;
  memory = λ n. length-replicate n (replicate 128 9);
  words = λ n. All-replicate (λ b. length b ≡ 128) n (replicate 128 9) refl;
}

-- Nothing fails there.
pub turns_reliable : (res : Outcome) → Fails turns res → false ≡ true
turns_reliable res (inl (e, (r, s, l, inl h))) = cc
turns_reliable res (inl (e, (r, s, l, inr h))) = cc
turns_reliable res (inr (e, inl (q, n, h))) = cc
turns_reliable res (inr (e, inr (inl (n, h)))) = cc
turns_reliable res (inr (e, inr (inr (inl h)))) = cc
turns_reliable res (inr (e, inr (inr (inr h)))) = cc

-- Another one, where buffers are zeros and a thread runs when it is joined.
abbrev pub joining : Platform
joining = record turns { garbage = λ q n. replicate n 0; rounds = λ r s call. [] }

pub joining-IsPlatform : IsPlatform joining
joining-IsPlatform = record {
  buffers = λ q n. length-replicate n 0;
  memory = turns-IsPlatform.memory;
  words = turns-IsPlatform.words;
}

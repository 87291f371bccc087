-- ===== src/Argon2/Entry/Tests.antt =====
-- Calls of the entry points on a platform whose threads take turns and whose memory is not empty.
use security_core.Common.{
  ℕ, ap, ◌≡◌, ◌≢◌, ◌≤◌, ◌<◌, refl, ◌⊎◌, inl, inr, none, some, [], ◌∷◌, ◌++◌, Bytes, AreBytes,
  are_bytes-AreBytes, codes, length, take, drop, replicate, ok, err, arith,
}
use security_core.Argon2.Types.{
  Context, argon2_id, argon2_type2string, encoding_fail, verify_mismatch,
}
use security_core.Argon2.Validate.Tests.{sample, sample-IsValidContext}
use security_core.Argon2.Decimal.{numlen, numlen_loop}
use security_core.Argon2.Base64.{b64len}
use security_core.Argon2.Encoding.{write_front, argon2_encodedlen}
use security_core.Argon2.Encoding.Encode.{hash_string}
use security_core.Argon2.Entry.{
  HashRequest, hash_context, argon2_ctx, argon2_verify_ctx, argon2_hash, argon2_verify,
}
use security_core.Argon2.Entry.Sample.{turns, turns-IsPlatform, turns_reliable}
use security_core.Argon2.Entry.Tag.{argon2_tag, cleared_context, IsBuffered, Fails}
use security_core.Argon2.Entry.Tag.Computed.{argon2_ctx-argon2_tag}
use security_core.Argon2.Entry.Verify.{argon2_verify_ctx-argon2_tag}
use security_core.Argon2.Entry.RoundTrip.{argon2_verify-argon2_hash, argon2_verify_same}
use security_core.Argon2.Entry.Stored.{stored_context}
use security_core.Argon2.Entry.Reached.{IsRequest}
use security_core.Argon2.Entry.Total.{argon2_hash_raw_total, argon2_hash_encoded_total}

sample-IsBuffered : IsBuffered sample
sample-IsBuffered = record { pwd_held = refl; salt_held = refl; secret_held = refl; ad_held = refl }

argon2_ctx-argon2_tag_example :
    ((tag : Bytes) × (argon2_tag sample argon2_id ≡ some tag)
      × (length tag ≡ 5)
      × AreBytes tag
      × (argon2_ctx turns sample argon2_id
          ≡ (ok tt, record (cleared_context sample) { out = write_front tag sample.out })))
    ⊎ Fails turns (argon2_ctx turns sample argon2_id).0
argon2_ctx-argon2_tag_example =
    argon2_ctx-argon2_tag turns sample argon2_id turns-IsPlatform sample-IsValidContext
      sample-IsBuffered

abbrev some_tag : Bytes
some_tag = 1 ∷ 2 ∷ 3 ∷ 4 ∷ 5 ∷ []

argon2_verify_ctx-argon2_tag_example :
    (((argon2_verify_ctx turns sample some_tag argon2_id).0 ≡ ok tt)
      × (argon2_tag sample argon2_id ≡ some (take 5 some_tag)))
    ⊎ (((argon2_verify_ctx turns sample some_tag argon2_id).0 ≡ err verify_mismatch)
        × (argon2_tag sample argon2_id ≢ some (take 5 some_tag)))
    ⊎ Fails turns (argon2_verify_ctx turns sample some_tag argon2_id).0
argon2_verify_ctx-argon2_tag_example =
    argon2_verify_ctx-argon2_tag turns sample argon2_id some_tag turns-IsPlatform
      sample-IsValidContext sample-IsBuffered (omega arith) (are_bytes-AreBytes some_tag refl)

abbrev request : HashRequest
request = record {
  t_cost = 1;
  m_cost = 24;
  parallelism = 2;
  pwd = some (codes "password");
  pwdlen = 8;
  salt = some (codes "somesalt");
  saltlen = 8;
  hashlen = 32;
  type = argon2_id;
  version = 0x13;
}

request-IsRequest : IsRequest request
request-IsRequest = record {
  pwd_range = omega arith;
  pwd_null = λ e. cc;
  pwd_held = refl;
  salt_range = (omega arith, omega arith);
  salt_set = refl;
  salt_held = refl;
  hash_range = (omega arith, omega arith);
  time_range = (omega arith, omega arith);
  lanes_range = (omega arith, omega arith);
  memory_range = (omega arith, omega arith);
}

argon2_hash_raw_total_example :
    ((tag : Bytes) × (argon2_tag (hash_context turns request) argon2_id ≡ some tag)
      × (length tag ≡ 32)
      × (argon2_hash turns request (some (replicate 32 0)) none 0 ≡ record {
        code = ok tt;
        hash = write_front tag (some (replicate 32 0));
        encoded = none;
      }))
    ⊎ Fails turns (argon2_hash turns request (some (replicate 32 0)) none 0).code
argon2_hash_raw_total_example =
    argon2_hash_raw_total turns request turns-IsPlatform request-IsRequest (some (replicate 32 0))

abbrev buffer : Bytes
buffer = replicate 100 0

needed : argon2_encodedlen 1 24 2 8 32 argon2_id ≡ 84
unfolding argon2_encodedlen numlen numlen_loop b64len argon2_type2string
needed = refl

abbrev room : ℕ
room = 100

argon2_hash_encoded_total_example :
    let wanted = argon2_encodedlen 1 24 2 8 32 argon2_id in
    let res = argon2_hash turns request none (some buffer) room in
    ((tag : Bytes) × (argon2_tag (hash_context turns request) argon2_id ≡ some tag)
      × let text = hash_string (stored_context (hash_context turns request) tag) argon2_id in
        (length (text ++ (0 ∷ [])) ≡ wanted)
        × (((room ≡ 0) × (res ≡ record { code = ok tt; hash = none; encoded = some buffer }))
            ⊎ ((wanted ≤ room)
                × (res ≡ record {
                  code = ok tt;
                  hash = none;
                  encoded = some ((text ++ (0 ∷ [])) ++ drop wanted buffer);
                }))
            ⊎ ((0 < room)
                × (room < wanted)
                × (res ≡ record {
                  code = err encoding_fail;
                  hash = none;
                  encoded = some (replicate room 0 ++ drop room buffer);
                }))))
    ⊎ Fails turns res.code
argon2_hash_encoded_total_example =
    argon2_hash_encoded_total turns request turns-IsPlatform request-IsRequest none buffer room refl
      (are_bytes-AreBytes (codes "somesalt") refl)

-- So the call returns ARGON2_OK.
hash_done : (argon2_hash turns request none (some buffer) 100).code ≡ ok tt
hash_done =
    elim (argon2_hash_encoded_total turns request turns-IsPlatform request-IsRequest none buffer 100
      refl (are_bytes-AreBytes (codes "somesalt") refl)) [
        | inl (tag, e, (l, inl (z, r))) ↦ absurd (omega (arith, z))
        | inl (tag, e, (l, inr (inl (fits, r)))) ↦ ap (λ t. t.code) r
        | inl (tag, e, (l, inr (inr (pos, less, r)))) ↦ absurd (omega (arith, less, needed))
        | inr f ↦ let e = turns_reliable _ f in cc (e)
      ]

argon2_verify_same_example :
    (text : Bytes) × ((argon2_hash turns request none (some buffer) 100).encoded
      ≡ some ((text ++ (0 ∷ [])) ++ drop (length (text ++ (0 ∷ []))) buffer))
    × ((argon2_verify turns (some text) (some (codes "password")) 8 argon2_id ≡ ok tt)
        ⊎ Fails turns (argon2_verify turns (some text) (some (codes "password")) 8 argon2_id))
argon2_verify_same_example =
    argon2_verify_same turns turns request none buffer 100 turns-IsPlatform turns-IsPlatform
      (omega arith) (omega arith) (omega arith) refl
      (refl, are_bytes-AreBytes (codes "somesalt") refl) hash_done

abbrev with_other : Context
with_other = record (hash_context turns request) { pwd = some (codes "passwort"); pwdlen = 8 }

argon2_verify-argon2_hash_example :
    (text : Bytes) × ((argon2_hash turns request none (some buffer) 100).encoded
      ≡ some ((text ++ (0 ∷ [])) ++ drop (length (text ++ (0 ∷ []))) buffer))
    × (((argon2_verify turns (some text) (some (codes "passwort")) 8 argon2_id ≡ ok tt)
          × (argon2_tag with_other argon2_id ≡ argon2_tag (hash_context turns request) argon2_id))
        ⊎ ((argon2_verify turns (some text) (some (codes "passwort")) 8 argon2_id
              ≡ err verify_mismatch)
            × (argon2_tag with_other argon2_id ≢ argon2_tag (hash_context turns request) argon2_id))
        ⊎ Fails turns (argon2_verify turns (some text) (some (codes "passwort")) 8 argon2_id))
argon2_verify-argon2_hash_example =
    argon2_verify-argon2_hash turns turns request none buffer 100 (some (codes "passwort")) 8
      turns-IsPlatform turns-IsPlatform (omega arith) (omega arith) (omega arith) refl
      (refl, are_bytes-AreBytes (codes "somesalt") refl) refl (λ e. cc) (omega arith) hash_done

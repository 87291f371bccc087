-- ===== src/Bundle/Tests.antt =====
-- Runs of the builder on the samples, and examples of the theorems.
use security_core.Common.{
  ℕ, ◌+◌, ◌*◌, ◌<◌, ◌⊎◌, inl, inr, ◌≡◌, ◌↔◌, ◌≤◌, refl, sym, ap, ap₂, subst, ◌∙◌, ◌%◌,
  length-replicate, some, none, false, List, [], ◌∷◌, Bytes, codes, length, length-append,
  replicate, Distinct, ok, err, arith,
}
use security_core.Bundle.Limits.{
  parameter_out_of_bounds, hash_failed, manifest_parse_failed, duplicate_id, validate_argon2_params,
  validate_manifest_size, validate_item_size, validate_total_file_size,
}
use security_core.Bundle.Failure.{thrown}
use security_core.Bundle.Crypto.{derive_manifest_key, derive_item_key, seal_gcm}
use security_core.Bundle.Header.{serialize, header_fields, init_header}
use security_core.Bundle.ItemRecord.{encrypt_item, decrypt_item}
use security_core.Bundle.ItemRecord.Laws.{decrypt_item_iff}
use security_core.Bundle.Manifest.Valid.{IsManifest, validate_iff}
use security_core.Bundle.Random.{random_bytes}
use security_core.Bundle.KeyDerivation.{derive_key}
use security_core.Bundle.KeyDerivation.Raw.{argon2_raw}
use security_core.Argon2.Types.{ErrorCode, code_value, memory_too_little}
use security_core.Argon2.Entry.Sample.{
  turns, turns-IsPlatform, turns_reliable, joining, joining-IsPlatform,
}
use security_core.Argon2.Entry.Tag.{Fails}
use security_core.Bundle.Manifest.{
  ItemDescriptor, Manifest, init_descriptor, validate_ttl_consistency, encrypt_manifest,
  encode_json, init_manifest, validate,
}
use security_core.Bundle.Manifest.Laws.{stored_items, stored_manifest}
use security_core.Bundle.Builder.{
  stage_items, encrypt_items, seal_bundle, build_bundle, build, add, describe, descriptors,
}
use security_core.Bundle.Builder.Sealed.{Staged, item_ids}
use security_core.Bundle.Builder.Returned.{Encodes}
use security_core.Bundle.Builder.Total.{build_total}
use security_core.Bundle.Parser.{BundleParser, init_parser, unlock, decrypt}
use security_core.Bundle.Parser.RoundTrip.{unlock-build, decrypt-build, unlock-build_duplicate}
use security_core.Bundle.Parser.Platforms.{decrypt-build_platforms}
use security_core.Bundle.Parser.Vault.{Call, unlocking, locking, decrypting, run_parser, run_vault}
use security_core.Bundle.Parser.Refinement.{run_parser-run_vault}
use security_core.Bundle.Sample.{
  toy_cryptography, toy_cryptography-IsCryptography, toy_hash, toy_source, note, photo, two_items,
  same_item_twice,
}
use security_core.Bundle.Sample.Coder.{
  toy_coder, toy_coder-IsCoder, whole_seconds, write, write_items,
}
use security_core.Bundle.Sample.Files.{two_items_file, same_item_twice_file}

abbrev secret : Bytes
secret = codes "secret"

build-two_items :
    build toy_cryptography toy_coder toy_hash toy_source 7 two_items secret ≡ ok two_items_file
unfolding build build_bundle stage_items encrypt_items seal_bundle random_bytes derive_key
    init_descriptor validate_ttl_consistency encrypt_manifest encode_json seal_gcm
    derive_manifest_key derive_item_key encrypt_item serialize header_fields init_header
    validate_argon2_params validate_manifest_size validate_item_size validate_total_file_size
build-two_items = refl

build-same_item_twice :
    build toy_cryptography toy_coder toy_hash toy_source 7 same_item_twice secret
    ≡ ok same_item_twice_file
unfolding build build_bundle stage_items encrypt_items seal_bundle random_bytes derive_key
    init_descriptor validate_ttl_consistency encrypt_manifest encode_json seal_gcm
    derive_manifest_key derive_item_key encrypt_item serialize header_fields init_header
    validate_argon2_params validate_manifest_size validate_item_size validate_total_file_size
build-same_item_twice = refl

add-photo : add (record two_items { items = note ∷ [] }) photo ≡ two_items
unfolding add
add-photo = refl

two_items-Distinct : Distinct (item_ids two_items.items)
two_items-Distinct = (((λ e. cc (e)), tt), (tt, tt))

not-same_item_twice-Distinct : ¬ Distinct (item_ids same_item_twice.items)
not-same_item_twice-Distinct h = h.0.0 refl

decrypt-build_example :
    (p : BundleParser ℕ) × (u : BundleParser ℕ) × (m : Manifest ℕ) × (init_parser two_items_file
      ≡ ok p)
    × (unlock toy_cryptography toy_coder toy_hash p secret ≡ (u, ok m))
    × (decrypt toy_cryptography u (describe photo []) ≡ ok (255 ∷ 216 ∷ 255 ∷ []))
decrypt-build_example =
    decrypt-build toy_cryptography toy_cryptography-IsCryptography toy_coder toy_hash two_items
      secret two_items_file whole_seconds toy_coder-IsCoder toy_source 7 1 photo (describe photo [])
      two_items-Distinct refl refl build-two_items

unlock-build_example :
    (p : BundleParser ℕ) × (u : BundleParser ℕ) × (staged : List (ItemDescriptor ℕ × Bytes))
    × (init_parser two_items_file ≡ ok p)
    × (unlock toy_cryptography toy_coder toy_hash p secret ≡ (
      u,
      ok (
          stored_manifest whole_seconds
            (init_manifest 1999001 (some (codes "backup")) (descriptors staged))),
    ))
    × Staged two_items.items staged
unlock-build_example =
    unlock-build toy_cryptography toy_cryptography-IsCryptography toy_coder toy_hash two_items
      secret two_items_file whole_seconds toy_coder-IsCoder toy_source 7 two_items-Distinct
      build-two_items

unlock-build_duplicate_example :
    (p : BundleParser ℕ) × (id : Bytes) × (init_parser same_item_twice_file ≡ ok p)
    × (unlock toy_cryptography toy_coder toy_hash p secret
        ≡ (p, err (thrown (manifest_parse_failed (duplicate_id id)))))
unlock-build_duplicate_example =
    unlock-build_duplicate toy_cryptography toy_cryptography-IsCryptography toy_coder toy_hash
      same_item_twice secret same_item_twice_file whole_seconds toy_coder-IsCoder toy_source 7
      not-same_item_twice-Distinct build-same_item_twice

abbrev some_calls : List (Call ℕ)
some_calls =
    decrypting (describe note [])
    ∷ unlocking
    ∷ decrypting (describe photo [])
    ∷ decrypting (describe note [])
    ∷ locking
    ∷ decrypting (describe photo [])
    ∷ []

run_parser-run_vault_example :
    (p : BundleParser ℕ) × (staged : List (ItemDescriptor ℕ × Bytes)) × (init_parser two_items_file
      ≡ ok p)
    × Staged two_items.items staged
    × (run_parser toy_cryptography toy_coder toy_hash secret p some_calls
        ≡ run_vault
            (stored_manifest whole_seconds
              (init_manifest 1999001 (some (codes "backup")) (descriptors staged)))
            two_items.items
            false
            some_calls)
run_parser-run_vault_example =
    run_parser-run_vault toy_cryptography toy_cryptography-IsCryptography toy_coder toy_hash
      two_items secret two_items_file whole_seconds toy_coder-IsCoder two_items-Distinct toy_source
      7 some_calls build-two_items

-- A manifest for the sample is short, whatever the nonces are.
two_items-Encodes : Encodes toy_coder two_items
two_items-Encodes [] h = absurd h
two_items-Encodes (a ∷ []) h = absurd h.1
two_items-Encodes (a ∷ (b ∷ (d ∷ staged))) h = absurd h.1.1
two_items-Encodes (a ∷ (b ∷ [])) h =
    let n1 : length a.1 ≡ 12 =
      ap (λ (t : ItemDescriptor ℕ). length t.item_nonce) (sym h.0.0) ∙ h.0.1.nonce_12 in
    let n2 : length b.1 ≡ 12 =
      ap (λ (t : ItemDescriptor ℕ). length t.item_nonce) (sym h.1.0.0) ∙ h.1.0.1.nonce_12 in
    let whole : List (ItemDescriptor ℕ) → Bytes = λ items.
      write (stored_manifest whole_seconds (init_manifest 1999001 (some (codes "backup")) items)) in
    (
      whole (a.0 ∷ b.0 ∷ []),
      refl,
      subst (λ items. length (whole items) + 16 ≤ 1048576)
          (ap₂ (λ x y. x ∷ y ∷ []) (sym h.0.0) (sym h.1.0.0))
          (omega (
            arith,
            n1,
            n2,
            length-append a.1 (write_items (stored_items whole_seconds (describe photo b.1 ∷ []))),
            length-append b.1 [],
          )),
    )

build_total_example :
    let res = build toy_cryptography toy_coder (argon2_raw turns) toy_source 7 two_items secret in
    ((8 * two_items.parameters.parallelism ≤ two_items.parameters.memory_kib)
      × ((file : Bytes) × (res ≡ ok file)))
    ⊎ ((two_items.parameters.memory_kib < 8 * two_items.parameters.parallelism)
        × (res
            ≡ err (thrown (parameter_out_of_bounds (hash_failed (code_value memory_too_little))))))
    ⊎ ((e : ErrorCode) × Fails turns (err e)
        × (res ≡ err (thrown (parameter_out_of_bounds (hash_failed (code_value e))))))
build_total_example =
    build_total toy_cryptography toy_coder turns toy_source 7 two_items secret
      toy_cryptography-IsCryptography turns-IsPlatform
      (λ call count. (replicate count (call % 256), refl, length-replicate count (call % 256)))
      two_items-Encodes ((omega arith, tt), ((omega arith, tt), tt))
      (omega arith, omega arith, omega arith, omega arith, omega arith, omega arith) (omega arith)
      (omega arith) (omega arith)

-- The bundle that is built on the platform of the samples.
two_items_built :
    (file : Bytes) × (build toy_cryptography toy_coder
        (argon2_raw turns)
        toy_source
        7
        two_items
        secret
      ≡ ok file)
two_items_built =
    elim (build_total toy_cryptography toy_coder turns toy_source 7 two_items secret
      toy_cryptography-IsCryptography turns-IsPlatform
      (λ call count. (replicate count (call % 256), refl, length-replicate count (call % 256)))
      two_items-Encodes ((omega arith, tt), ((omega arith, tt), tt))
      (omega arith, omega arith, omega arith, omega arith, omega arith, omega arith) (omega arith)
      (omega arith) (omega arith)) [
        | inl (enough, r) ↦ r
        | inr (inl (less, r)) ↦ absurd (omega (arith, less))
        | inr (inr (e, f, r)) ↦ let no = turns_reliable (err e) f in cc (no)
      ]

decrypt-build_platforms_example :
    (q : BundleParser ℕ) × (init_parser two_items_built.0 ≡ ok q)
    × (((u : BundleParser ℕ) × (m : Manifest ℕ) × (unlock toy_cryptography toy_coder
              (argon2_raw joining)
              q
              secret
            ≡ (u, ok m))
          × (decrypt toy_cryptography u (describe photo []) ≡ ok (255 ∷ 216 ∷ 255 ∷ [])))
        ⊎ ((e : ErrorCode) × Fails joining (err e)
            × (unlock toy_cryptography toy_coder (argon2_raw joining) q secret
                ≡ (q, err (thrown (parameter_out_of_bounds (hash_failed (code_value e))))))))
decrypt-build_platforms_example =
    decrypt-build_platforms toy_cryptography toy_cryptography-IsCryptography toy_coder turns joining
      two_items secret two_items_built.0 whole_seconds toy_coder-IsCoder toy_source 7 1 photo
      (describe photo []) turns-IsPlatform joining-IsPlatform two_items-Distinct refl refl
      two_items_built.1

validate_iff_example :
    (validate (init_manifest 1999001 none (describe note (replicate 12 9) ∷ [])) ≡ ok tt)
    ↔ IsManifest (init_manifest 1999001 none (describe note (replicate 12 9) ∷ []))
validate_iff_example =
    validate_iff (init_manifest 1999001 none (describe note (replicate 12 9) ∷ []))

decrypt_item_iff_example :
    (decrypt_item toy_cryptography
        (replicate 20 1)
        (replicate 32 246)
        (replicate 16 1)
        (replicate 12 9)
        (codes "header")
      ≡ ok (replicate 4 1))
    ↔ (encrypt_item toy_cryptography
          (replicate 4 1)
          (replicate 32 246)
          (replicate 16 1)
          (replicate 12 9)
          (codes "header")
        ≡ ok (replicate 20 1))
decrypt_item_iff_example =
    decrypt_item_iff toy_cryptography toy_cryptography-IsCryptography (replicate 4 1)
      (replicate 32 246) (replicate 16 1) (replicate 12 9) (codes "header") (replicate 20 1)

-- ===== src/Bundle/Builder/Returned.antt =====
-- The builder on items that keep the limits, from the key on.
use security_core.Common.{
  ℕ, ◌+◌, ◌≡◌, ◌<◌, ◌≤◌, ◌^◌, refl, sym, ap, ◌∙◌, some, List, [], ◌∷◌, ◌++◌, All, Bytes, length,
  length-append, lt→ltb, false, ◌==◌, ==_iff, Result, ok, err, arith,
}
use security_core.Bundle.Failure.{thrown}
use security_core.Bundle.Limits.{
  AreParams, parameter_out_of_bounds, hash_failed, validate_item_size_iff,
  validate_manifest_size_iff, validate_total_file_size_iff,
}
use security_core.Bundle.Crypto.{Cryptography}
use security_core.Bundle.Crypto.Laws.{IsCryptography}
use security_core.Bundle.Header.Valid.{IsHeader, IsHeader-init_header}
use security_core.Bundle.Header.RoundTrip.{parse-serialize}
use security_core.Bundle.ItemRecord.Laws.{encrypt_item_total}
use security_core.Bundle.Random.{RandomSource, IsWorking, random_bytes}
use security_core.Bundle.KeyDerivation.{HashRaw, derive_key}
use security_core.Bundle.Manifest.{ItemDescriptor, Coder, init_manifest, encode_json}
use security_core.Bundle.Manifest.Valid.{AreTogether, IsDescriptor, init_descriptor_iff}
use security_core.Bundle.Manifest.Laws.{encrypt_manifest_total}
use security_core.Bundle.Builder.{
  ItemContent, BundleBuilder, concat, describe, stage_items, descriptors, encrypt_items, new_header,
  seal_bundle, build_bundle, build,
}
use security_core.Bundle.Builder.Sealed.{Staged, stage_items-Staged}

module _ {D : Type 0} where
  abbrev pub IsExportable : ItemContent D → Type 0
  IsExportable item =
      (length item.plaintext + 16 ≤ 262144000) × AreTogether item.ttl_seconds item.ttl_origin_epoch

  -- The bytes of the records of the items.
  abbrev pub records_size : List (ItemContent D) → ℕ
  records_size [] = 0
  records_size (item ∷ items) = (length item.plaintext + 16) + records_size items

  describe-IsDescriptor :
      (item : ItemContent D) (nonce : Bytes)
      → IsExportable item
      → length nonce ≡ 12
      → IsDescriptor (describe item nonce)
  describe-IsDescriptor item nonce v n =
      let small = v.0 in record { nonce_12 = n; size_range = (omega arith, small); ttl = v.1 }

  pub stage_items_total :
      (source : RandomSource) (call : ℕ) (items : List (ItemContent D))
      → IsWorking source
      → All IsExportable items
      → (staged : List (ItemDescriptor D × Bytes)) × (stage_items source call items ≡ ok staged)
  unfolding stage_items random_bytes
  stage_items_total source call [] w v = ([], refl)
  stage_items_total source call (item ∷ items) w v =
      let (nonce, e, n) = w call 12 in
      let (rest, later) = stage_items_total source (call + 1) items w v.1 in
      let d = describe-IsDescriptor item nonce v.0 n in
      (
        (describe item nonce, nonce) ∷ rest,
        rw (
          e,
          (validate_item_size_iff (length item.plaintext + 16)).1 d.size_range,
          (init_descriptor_iff (describe item nonce)).1 d,
          later,
        ),
      )

  module _ (c : Cryptography) (l : IsCryptography c) (master header : Bytes) where
    pub encrypt_items_total :
        (items : List (ItemContent D)) (staged : List (ItemDescriptor D × Bytes)) (total : ℕ)
        → Staged items staged
        → All IsExportable items
        → total + records_size items < 2 ^ 64
        → (records : List Bytes) × (encrypt_items c master header items staged total
            ≡ ok (records, total + records_size items))
          × (length (concat records) ≡ records_size items)
    unfolding encrypt_items
    encrypt_items_total [] [] total s v h = ([], ap (λ n. ok ([], n)) (omega arith), refl)
    encrypt_items_total [] (d ∷ staged) total s v h = absurd s
    encrypt_items_total (item ∷ items) [] total s v h = absurd s
    encrypt_items_total (item ∷ items) ((d, nonce) ∷ staged) total s v h =
        let n : length nonce ≡ 12 =
          ap (λ (t : ItemDescriptor D). length t.item_nonce) (sym s.0.0) ∙ s.0.1.nonce_12 in
        let small = v.0.0 in
        let (bytes, e, size) =
          encrypt_item_total c l item.plaintext master item.id nonce header n
            (omega (arith, small)) in
        let same : length bytes ≡ d.item_size =
          size ∙ ap (λ (t : ItemDescriptor D). t.item_size) (sym s.0.0) in
        let (rest, later, sum) =
          encrypt_items_total items staged (total + length bytes) s.1 v.1 (omega (arith, size)) in
        (
          bytes ∷ rest,
          rw
              (
                e,
                (==_iff (length bytes) d.item_size).1 same,
                lt→ltb (total + length bytes) (2 ^ 64) (omega (arith, size)),
                later,
              )
              (ap (λ n. ok (bytes ∷ rest, n)) (omega (arith, size))),
          omega (arith, length-append bytes (concat rest), size, sum),
        )

  module _ (c : Cryptography) (l : IsCryptography c) (j : Coder D) (b : BundleBuilder D)
      (master salt nonce : Bytes) where
    seal_bundle_total :
        (staged : List (ItemDescriptor D × Bytes)) (plaintext header : Bytes)
        → j.encode (init_manifest b.exported_at b.export_label (descriptors staged))
          ≡ some plaintext
        → Staged b.items staged
        → All IsExportable b.items
        → length nonce ≡ 12
        → length header ≡ 96
        → 96 + (length plaintext + 16) + records_size b.items ≤ 2147483648
        → (file : Bytes) × (seal_bundle c j b master nonce staged
              (init_manifest b.exported_at b.export_label (descriptors staged))
              (length plaintext + 16)
              header
            ≡ ok file)
          × (length file ≡ 96 + (length plaintext + 16) + records_size b.items)
    unfolding seal_bundle
    seal_bundle_total staged plaintext header e s v n h cap =
        let m = init_manifest b.exported_at b.export_label (descriptors staged) in
        let size = length plaintext + 16 in
        let total = 96 + size + records_size b.items in
        let (ct, tag, sealed, fits) =
          encrypt_manifest_total c l j m master nonce header plaintext e n (omega (arith, cap)) in
        let (records, enc, sum) =
          encrypt_items_total c l master header b.items staged 0 s v (omega (arith, cap)) in
        let enc0 : encrypt_items c master header b.items staged 0
            ≡ ok (records, records_size b.items) =
          enc ∙ ap (λ k. ok (records, k)) (omega arith) in
        let whole : length (header ++ (ct ++ (tag ++ concat records))) ≡ total = omega (
          arith,
          fits,
          sum,
          h,
          length-append header (ct ++ (tag ++ concat records)),
          length-append ct (tag ++ concat records),
          length-append tag (concat records),
        ) in
        (
          header ++ (ct ++ (tag ++ concat records)),
          rw (
            sealed,
            (==_iff (length ct + length tag) size).1 fits,
            enc0,
            lt→ltb total (2 ^ 64) (omega (arith, cap)),
            (validate_total_file_size_iff total).1 cap,
            (==_iff (length (header ++ (ct ++ (tag ++ concat records)))) total).1 whole,
          ),
          whole,
        )

  -- The encoder gives a text within the limit for each manifest of the builder.
  abbrev pub Encodes : Coder D → BundleBuilder D → Type 0
  Encodes j b =
      (staged : List (ItemDescriptor D × Bytes))
      → Staged b.items staged
      → (text : Bytes) × (j.encode (init_manifest b.exported_at b.export_label (descriptors staged))
          ≡ some text)
        × (length text + 16 ≤ 1048576)

  module _ (c : Cryptography) (j : Coder D) (hash_raw : HashRaw) (source : RandomSource) (call : ℕ)
      (b : BundleBuilder D) (passphrase salt : Bytes) (w : IsWorking source)
      (p : 0 < length passphrase) (e1 : source call 16 ≡ some salt) (n1 : length salt ≡ 16) where
    abbrev hashed : Result ℕ Bytes
    hashed =
        hash_raw b.parameters.time_cost b.parameters.memory_kib b.parameters.parallelism passphrase
          salt 32

    some_byte : (length passphrase == 0) ≡ false
    some_byte = ground (arith, p)

    -- A code of the hash is thrown.
    pub build_thrown :
        (code : ℕ)
        → hashed ≡ err code
        → build c j hash_raw source call b passphrase
          ≡ err (thrown (parameter_out_of_bounds (hash_failed code)))
    unfolding build random_bytes derive_key
    build_thrown code e3 =
        let (nonce, e2, n2) = w (call + 1) 12 in
        rw (e1, e2, some_byte, (==_iff (length salt) 16).1 n1, e3)

    -- With a key the builder returns a bundle, if the limits are kept.
    pub build_returned :
        (master : Bytes)
        → hashed ≡ ok master
        → IsCryptography c
        → Encodes j b
        → All IsExportable b.items
        → AreParams b.parameters.time_cost b.parameters.memory_kib b.parameters.parallelism
        → 96 + 1048576 + records_size b.items ≤ 2147483648
        → (file : Bytes) × (build c j hash_raw source call b passphrase ≡ ok file)
    unfolding build build_bundle random_bytes derive_key encode_json
    build_returned master e3 l texts v params cap =
        let (nonce, e2, n2) = w (call + 1) 12 in
        let (staged, e4) = stage_items_total source (call + 2) b.items w v in
        let st = stage_items-Staged source (call + 2) b.items staged e4 in
        let (text, e5, short) = texts staged st in
        let size = length text + 16 in
        let header = new_header b.parameters salt nonce size in
        let good : IsHeader header = record {
          version_one = refl;
          argon2id = refl;
          salt_16 = n1;
          nonce_12 = n2;
          params = params;
          size_range = (omega arith, short);
        } in
        let (bytes, e6, n6, back) = parse-serialize header good in
        let (file, e7, n7) =
          seal_bundle_total c l j b master salt nonce staged text bytes e5 st v n2 n6
            (omega (arith, cap, short)) in
        (
          file,
          rw
              (
                e1,
                e2,
                some_byte,
                (==_iff (length salt) 16).1 n1,
                e3,
                e4,
                e5,
                (validate_manifest_size_iff size).1 good.size_range,
                lt→ltb size (2 ^ 32) (omega (arith, short)),
                IsHeader-init_header header good,
                e6,
              )
              e7,
        )

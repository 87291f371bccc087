-- ===== src/Bundle/Parser/Open.antt =====
-- A bundle that was built, opened and unlocked with its key.
use security_core.Common.{
  ◌+◌, ◌-◌, ◌≡◌, ◌^◌, refl, sym, ap, ◌∙◌, subst, none, some, List, [], ◌∷◌, ◌++◌, append_assoc, All,
  Distinct, Bytes, length, length-append, take, take-append, le→leb, ok, err, arith,
}
use security_core.Bundle.Limits.{validate_total_file_size_iff}
use security_core.Bundle.Crypto.{Cryptography}
use security_core.Bundle.Crypto.Laws.{IsCryptography, cut_tag}
use security_core.Bundle.Failure.{Failure}
use security_core.Bundle.Header.{BundleHeader, parse, subdata}
use security_core.Bundle.Header.RoundTrip.{parse-serialize}
use security_core.Bundle.Manifest.{ItemDescriptor, Manifest, Coder, init_manifest, decrypt_manifest}
use security_core.Bundle.Manifest.Valid.{IsDescriptor, IsManifest, ids}
use security_core.Bundle.Manifest.Laws.{
  IsCoder, stored_manifest, decrypt_manifest-encrypt_manifest, length-encrypt_manifest,
}
use security_core.Bundle.Builder.{ItemContent, BundleBuilder, descriptors, concat}
use security_core.Bundle.Builder.Sealed.{Staged, item_ids}
use security_core.Bundle.Builder.Built.{Built}
use security_core.Bundle.Parser.{
  BundleParser, add_sizes, init_parser, read_manifest, unlock_with_key,
}
use security_core.Bundle.Parser.Sizes.{subdata-append, add_sizes-Sealed}

module _ {D : Type 0} where
  pub ids-descriptors :
      (items : List (ItemContent D)) (staged : List (ItemDescriptor D × Bytes))
      → Staged items staged
      → ids (descriptors staged) ≡ item_ids items
  ids-descriptors [] [] h = refl
  ids-descriptors [] (s ∷ staged) h = absurd h
  ids-descriptors (item ∷ items) [] h = absurd h
  ids-descriptors (item ∷ items) (s ∷ staged) h =
      ap (λ (d : ItemDescriptor D). d.id ∷ ids (descriptors staged)) h.0.0
      ∙ ap (λ t. item.id ∷ t) (ids-descriptors items staged h.1)

  pub descriptors-IsDescriptor :
      (items : List (ItemContent D)) (staged : List (ItemDescriptor D × Bytes))
      → Staged items staged
      → All IsDescriptor (descriptors staged)
  descriptors-IsDescriptor [] [] h = tt
  descriptors-IsDescriptor [] (s ∷ staged) h = absurd h
  descriptors-IsDescriptor (item ∷ items) [] h = absurd h
  descriptors-IsDescriptor (item ∷ items) (s ∷ staged) h =
      (h.0.1, descriptors-IsDescriptor items staged h.1)

  pub Staged-IsManifest :
      (b : BundleBuilder D) (staged : List (ItemDescriptor D × Bytes))
      → Staged b.items staged
      → Distinct (item_ids b.items)
      → IsManifest (init_manifest b.exported_at b.export_label (descriptors staged))
  Staged-IsManifest b staged h distinct = record {
    current = refl;
    descriptors = descriptors-IsDescriptor b.items staged h;
    distinct = subst Distinct (sym (ids-descriptors b.items staged h)) distinct;
  }

  -- The parser of a file, before it is unlocked.
  abbrev pub locked_parser : BundleHeader → Bytes → Bytes → BundleParser D
  locked_parser header header_bytes file = record {
    header = header;
    file = file;
    header_bytes = header_bytes;
    master_key = none;
    cached_manifest = none;
  }

  module _ (c : Cryptography) (l : IsCryptography c) (j : Coder D) (b : BundleBuilder D)
      (master salt nonce file : Bytes) (r : Built c j b master salt nonce file) where
    length-header_bytes : length r.header_bytes ≡ 96
    length-header_bytes =
        let (bytes, e, n, back) = parse-serialize r.header r.header_valid in
        let same : bytes ≡ r.header_bytes = cc (e, r.serialized) in ap length (sym same) ∙ n

    parse_file : parse file ≡ ok r.header
    parse_file =
        let (bytes, e, n, back) = parse-serialize r.header r.header_valid in
        let same : bytes ≡ r.header_bytes = cc (e, r.serialized) in
        ap parse r.parts
        ∙ ap (λ h. parse (h ++ (r.ciphertext ++ (r.tag ++ concat r.records)))) (sym same)
        ∙ back (r.ciphertext ++ (r.tag ++ concat r.records))

    pub length_file : length file ≡ 96 + r.header.manifest_size + length (concat r.records)
    length_file =
        let a = length-append r.header_bytes (r.ciphertext ++ (r.tag ++ concat r.records)) in
        let b = length-append r.ciphertext (r.tag ++ concat r.records) in
        let d = length-append r.tag (concat r.records) in
        let n = length-header_bytes in
        ap length r.parts ∙ omega (arith, r.manifest_fits, a, b, d, n)

    -- The file is opened, with the header of the builder.
    pub init_parser-Built : init_parser file ≡ ok (locked_parser r.header r.header_bytes file)
    unfolding init_parser
    init_parser-Built =
        let front : take 96 file ≡ r.header_bytes =
          ap (take 96) r.parts ∙ take-append r.header_bytes _ 96 length-header_bytes in
        let long =
          le→leb (96 + r.header.manifest_size) (length file) (omega (arith, length_file)) in
        rw ((validate_total_file_size_iff (length file)).1 r.within_cap, parse_file, long)
          (ap (λ t. ok (locked_parser r.header t file)) front)

    length_tag : length r.tag ≡ 16
    length_tag =
        (length-encrypt_manifest c l j _ master nonce r.header_bytes r.ciphertext r.tag
          r.manifest_sealed)

    manifest_section : subdata file 96 (96 + r.header.manifest_size) ≡ r.ciphertext ++ r.tag
    manifest_section =
        ap (λ f. subdata f 96 (96 + r.header.manifest_size))
          (r.parts
            ∙ ap (λ t. r.header_bytes ++ t)
                (sym (append_assoc r.ciphertext r.tag (concat r.records))))
        ∙ subdata-append r.header_bytes (r.ciphertext ++ r.tag) (concat r.records) 96
            (96 + r.header.manifest_size) (sym length-header_bytes)
            (omega (arith, r.manifest_fits, length-append r.ciphertext r.tag))

    -- An error of the decryption is passed on.
    pub read_manifest-err :
        (e : Failure)
        → decrypt_manifest c j r.ciphertext r.tag master nonce r.header_bytes ≡ err e
        → read_manifest c j (locked_parser r.header r.header_bytes file) master ≡ err e
    unfolding read_manifest
    read_manifest-err e h =
        let whole = length_file in
        let (front, back) = cut_tag r.ciphertext r.tag length_tag in
        rw (
          le→leb (96 + r.header.manifest_size) (length file) (omega (arith, whole)),
          manifest_section,
          le→leb 16 (length (r.ciphertext ++ r.tag))
              (omega (arith, length_tag, length-append r.ciphertext r.tag)),
          front,
          back,
          r.header_fields.1,
          h,
        )

    module _ (stored : D → D) (k : IsCoder stored j) (distinct : Distinct (item_ids b.items)) where
      abbrev pub delivered : Manifest D
      delivered =
          stored_manifest stored (init_manifest b.exported_at b.export_label (descriptors r.staged))

      abbrev pub unlocked_parser : BundleParser D
      unlocked_parser = record (locked_parser r.header r.header_bytes file) {
        master_key = some master;
        cached_manifest = some delivered;
      }

      pub read_manifest-Built :
          read_manifest c j (locked_parser r.header r.header_bytes file) master ≡ ok delivered
      unfolding read_manifest
      read_manifest-Built =
          let whole = length_file in
          let (front, back) = cut_tag r.ciphertext r.tag length_tag in
          let long =
            le→leb 16 (length (r.ciphertext ++ r.tag))
              (omega (arith, length_tag, length-append r.ciphertext r.tag)) in
          let read =
            decrypt_manifest-encrypt_manifest stored c l j k _ master nonce r.header_bytes
              r.ciphertext r.tag (Staged-IsManifest b r.staged r.items_staged distinct)
              r.manifest_sealed in
          let sum : add_sizes (2 ^ 64) 0 delivered.items ≡ ok (length (concat r.records)) =
            add_sizes-Sealed stored c master r.header_bytes b.items r.staged r.records (2 ^ 64) 0
              r.items_sealed r.items_staged (omega (arith, whole, r.within_cap))
            ∙ ap ok (omega arith) in
          rw (
            le→leb (96 + r.header.manifest_size) (length file) (omega (arith, whole)),
            manifest_section,
            long,
            front,
            back,
            r.header_fields.1,
            read,
            sum,
            le→leb (length (concat r.records)) (length file - (96 + r.header.manifest_size))
                (omega (arith, whole)),
          )

      pub unlock_with_key-Built :
          unlock_with_key c j (locked_parser r.header r.header_bytes file) master
          ≡ (unlocked_parser, ok delivered)
      unfolding unlock_with_key
      unlock_with_key-Built = rw read_manifest-Built

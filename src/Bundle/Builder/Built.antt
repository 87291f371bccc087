-- ===== src/Bundle/Builder/Built.antt =====
-- What a bundle that `build_bundle` returns consists of.
use security_core.Common.{
  ℕ, ◌+◌, ◌≡◌, ◌≤◌, ◌^◌, refl, sym, some, List, ◌++◌, Bytes, length, ltb, ◌==◌, ==_iff, ok,
  >>=-elim, guard-eq-ok, subst, arith,
}
use security_core.Bundle.Limits.{
  validate_manifest_size, validate_total_file_size, validate_total_file_size_iff,
}
use security_core.Bundle.Failure.{trapped, attempt, attempt-eq-ok}
use security_core.Bundle.Crypto.{Cryptography, or_throw, or_throw-eq-ok}
use security_core.Bundle.Header.{BundleHeader, init_header, serialize}
use security_core.Bundle.Header.Valid.{IsHeader, init_header-IsHeader}
use security_core.Bundle.Random.{RandomSource}
use security_core.Bundle.Manifest.{
  ItemDescriptor, Coder, init_manifest, encode_json, encrypt_manifest,
}
use security_core.Bundle.Builder.{
  BundleBuilder, stage_items, descriptors, encrypt_items, concat, new_header, seal_bundle,
  build_bundle,
}
use security_core.Bundle.Builder.Sealed.{Staged, Sealed, stage_items-Staged, encrypt_items-Sealed}

module _ {D : Type 0} (c : Cryptography) (j : Coder D) (b : BundleBuilder D)
    (master salt nonce : Bytes) where
  -- The file is the header, the ciphertext and the tag of the manifest, and the records; the
  -- manifest has the descriptor of each item.
  pub record Built (file : Bytes) : Type 0 where
    pub staged : List (ItemDescriptor D × Bytes)
    pub header : BundleHeader
    pub header_bytes : Bytes
    pub ciphertext : Bytes
    pub tag : Bytes
    pub records : List Bytes
    pub items_staged : Staged b.items staged
    pub header_valid : IsHeader header
    pub header_fields : (header.salt ≡ salt) × (header.manifest_nonce ≡ nonce)
    pub header_parameters :
        (header.argon2_time_cost ≡ b.parameters.time_cost)
        × (header.argon2_memory_kib ≡ b.parameters.memory_kib)
        × (header.argon2_parallelism ≡ b.parameters.parallelism)
    pub serialized : serialize header ≡ some header_bytes
    pub manifest_sealed :
        encrypt_manifest c j
          (init_manifest b.exported_at b.export_label (descriptors staged))
          master
          nonce
          header_bytes
        ≡ ok (ciphertext, tag)
    pub manifest_fits : length ciphertext + length tag ≡ header.manifest_size
    pub items_sealed : Sealed c master header_bytes b.items staged records
    pub within_cap : length file ≤ 2147483648
    pub parts : file ≡ header_bytes ++ (ciphertext ++ (tag ++ concat records))

  -- Steps 4 to 6.
  seal_bundle-Built :
      (staged : List (ItemDescriptor D × Bytes)) (size : ℕ) (header_bytes file : Bytes)
      → seal_bundle c j b master nonce staged
          (init_manifest b.exported_at b.export_label (descriptors staged))
          size
          header_bytes
        ≡ ok file
      → Staged b.items staged
      → IsHeader (new_header b.parameters salt nonce size)
      → serialize (new_header b.parameters salt nonce size) ≡ some header_bytes
      → Built file
  unfolding seal_bundle
  seal_bundle-Built staged size header_bytes file h st v ser =
      >>=-elim (encrypt_manifest c j _ master nonce header_bytes) h λ sealed made h1.
        let (fits, h2) = guard-eq-ok (length sealed.0 + length sealed.1 == size) trapped _ h1 in
        >>=-elim (encrypt_items c master header_bytes b.items staged 0) h2 λ records enc h3.
          let (small, h4) = guard-eq-ok (ltb (96 + size + records.1) (2 ^ 64)) trapped _ h3 in
          >>=-elim (attempt (validate_total_file_size (96 + size + records.1))) h4 λ done cap h5.
            let output = header_bytes ++ (sealed.0 ++ (sealed.1 ++ concat records.0)) in
            let (whole, h6) = guard-eq-ok (length output == 96 + size + records.1) trapped _ h5 in
            let same : output ≡ file = cc (h6) in
            let limit =
              (validate_total_file_size_iff (96 + size + records.1)).0
                (attempt-eq-ok (validate_total_file_size (96 + size + records.1)) cap) in
            let total = (==_iff (length output) (96 + size + records.1)).0 whole in
            record {
              staged = staged;
              header = new_header b.parameters salt nonce size;
              header_bytes = header_bytes;
              ciphertext = sealed.0;
              tag = sealed.1;
              records = records.0;
              items_staged = st;
              header_valid = v;
              header_fields = (refl, refl);
              header_parameters = (refl, refl, refl);
              serialized = ser;
              manifest_sealed = made;
              manifest_fits = (==_iff (length sealed.0 + length sealed.1) size).0 fits;
              items_sealed =
                  (encrypt_items-Sealed c master header_bytes b.items staged 0 records.0 records.1
                    enc).0;
              within_cap = subst (λ f. length f ≤ 2147483648) same (omega (arith, limit, total));
              parts = sym same;
            }

  pub build_bundle-Built :
      (source : RandomSource) (call : ℕ) (file : Bytes)
      → build_bundle c j source call b master salt nonce ≡ ok file
      → Built file
  unfolding build_bundle
  build_bundle-Built source call file h =
      >>=-elim (stage_items source call b.items) h λ staged st h1.
        let m = init_manifest b.exported_at b.export_label (descriptors staged) in
        >>=-elim (encode_json j m) h1 λ plaintext text h2.
          let size = length plaintext + 16 in
          >>=-elim (attempt (validate_manifest_size size)) h2 λ done1 ms h3.
            let (w32, h4) = guard-eq-ok (ltb size (2 ^ 32)) trapped _ h3 in
            >>=-elim (attempt (init_header (new_header b.parameters salt nonce size))) h4
              λ header made h5.
                >>=-elim (or_throw trapped (serialize header)) h5 λ header_bytes ser h6.
                  let (same, v) =
                    init_header-IsHeader (new_header b.parameters salt nonce size) header (
                      attempt-eq-ok (init_header (new_header b.parameters salt nonce size)) made) in
                  seal_bundle-Built staged size header_bytes file h6
                    (stage_items-Staged source call b.items staged st) v
                    (subst (λ h. serialize h ≡ some header_bytes) same
                      (or_throw-eq-ok trapped (serialize header) ser))

-- ===== src/Bundle/Parser/Authentic.antt =====
-- What a parser returns once it is unlocked, in every state that it can reach.
use security_core.Common.{
  ℕ, ◌+◌, ◌-◌, ◌≡◌, ◌≤◌, ◌^◌, sym, ap, ap₂, subst, ◌∙◌, none, some, List, Bytes, length, take, drop,
  leb, leb→le, le→leb, lt→ltb, Result, ok, err, >>=-elim, guard-eq-ok, ◌⊎◌, inl, inr, Option-cases,
  arith,
}
use security_core.Bundle.Limits.{manifest_parse_failed, unknown_item}
use security_core.Bundle.Failure.{Failure, thrown, trapped}
use security_core.Bundle.Crypto.{Cryptography, seal_gcm, derive_manifest_key}
use security_core.Bundle.Crypto.Laws.{IsCryptography}
use security_core.Bundle.Header.{subdata}
use security_core.Bundle.ItemRecord.{encrypt_item, decrypt_item}
use security_core.Bundle.ItemRecord.Laws.{encrypt_item-decrypt_item}
use security_core.Bundle.KeyDerivation.{HashRaw}
use security_core.Bundle.Manifest.{ItemDescriptor, Manifest, Coder, decrypt_manifest}
use security_core.Bundle.Manifest.Valid.{IsManifest}
use security_core.Bundle.Manifest.Laws.{decrypt_manifest-eq-ok}
use security_core.Bundle.Parser.{
  BundleParser, manifest_end, add_sizes, read_manifest, first_index, decrypt_at, decrypt_found,
  decrypt_unlocked, decrypt,
}
use security_core.Bundle.Parser.Fits.{Fits, first_index-Fits}
use security_core.Bundle.Parser.States.{Reach, ParserState, locked, unlocked, Reach-IsOpened}

module _ {D : Type 0} where
  -- The bytes of the manifest before its tag, and the tag.
  abbrev pub manifest_bytes : BundleParser D → Bytes
  manifest_bytes p = subdata p.file 96 (manifest_end p)

  abbrev pub manifest_ciphertext : BundleParser D → Bytes
  manifest_ciphertext p = take (length (manifest_bytes p) - 16) (manifest_bytes p)

  abbrev pub manifest_tag : BundleParser D → Bytes
  manifest_tag p = drop (length (manifest_bytes p) - 16) (manifest_bytes p)

module _ {D : Type 0} (c : Cryptography) (j : Coder D) where
  read_manifest-eq-ok :
      (p : BundleParser D) (key : Bytes) (m : Manifest D)
      → read_manifest c j p key ≡ ok m
      → (decrypt_manifest c j
            (manifest_ciphertext p)
            (manifest_tag p)
            key
            p.header.manifest_nonce
            p.header_bytes
          ≡ ok m)
        × ((total : ℕ) × (add_sizes (2 ^ 64) 0 m.items ≡ ok total)
            × (total ≤ length p.file - manifest_end p))
  unfolding read_manifest
  read_manifest-eq-ok p key m h =
      let (_, h1) = guard-eq-ok (leb (manifest_end p) (length p.file)) trapped _ h in
      let (_, h2) = guard-eq-ok (leb 16 (length (manifest_bytes p))) _ _ h1 in
      >>=-elim
        (decrypt_manifest c j (manifest_ciphertext p) (manifest_tag p) key p.header.manifest_nonce
          p.header_bytes)
        h2
        λ read e h3. >>=-elim (add_sizes (2 ^ 64) 0 read.items) h3 λ total sum h4.
          let (small, h5) = guard-eq-ok (leb total (length p.file - manifest_end p)) _ _ h4 in
          let same : read ≡ m = cc (h5) in
          subst
            (λ (t : Manifest D).
              (decrypt_manifest c j (manifest_ciphertext p) (manifest_tag p) key
                  p.header.manifest_nonce p.header_bytes
                ≡ ok t)
              × ((total : ℕ) × (add_sizes (2 ^ 64) 0 t.items ≡ ok total)
                  × (total ≤ length p.file - manifest_end p)))
            same (e, (total, sum, leb→le total (length p.file - manifest_end p) small))

  ParserState-manifest :
      (p : BundleParser D) (key : Bytes) (m : Manifest D)
      → ParserState c j p
      → p.master_key ≡ some key
      → p.cached_manifest ≡ some m
      → read_manifest c j p key ≡ ok m
  ParserState-manifest p key m (locked a b) ek em = cc
  ParserState-manifest p key m (unlocked key1 m1 a b h) ek em =
      let k : key1 ≡ key = cc (a, ek) in
      let n : m1 ≡ m = cc (b, em) in ap (read_manifest c j p) (sym k) ∙ h ∙ ap ok n

  -- The call that a listed item comes to.
  decrypt_at-Fits :
      (p : BundleParser D) (key id : Bytes) (items : List (ItemDescriptor D)) (index room : ℕ)
      (entry : ItemDescriptor D) (f : Fits id items room index entry)
      → manifest_end p + room ≤ length p.file
      → length p.file ≤ 2147483648
      → let start = manifest_end p + f.front in
        decrypt_at c p key items (index, entry)
        ≡ decrypt_item c
            (subdata p.file start (start + entry.item_size))
            key
            id
            entry.item_nonce
            p.header_bytes
  unfolding decrypt_at
  decrypt_at-Fits p key id items index room entry f h cap =
      let start = manifest_end p + f.front in
      let fits = f.fits in
      let inside : start + entry.item_size ≤ length p.file = omega (arith, fits, h) in
      rw (
        f.offset (2 ^ 63) (manifest_end p) (omega (arith, inside, cap)),
        lt→ltb (start + entry.item_size) (2 ^ 63) (omega (arith, inside, cap)),
        le→leb (start + entry.item_size) (length p.file) inside,
        f.named,
      )

  -- A place in the file, and what `decrypt` makes of the bytes there.
  pub record Range (file key id : Bytes) (items : List (ItemDescriptor D))
      (result : Result Failure Bytes) : Type 0 where
    pub index : ℕ
    pub entry : ItemDescriptor D
    pub start : ℕ
    pub listed : first_index id items ≡ some (index, entry)
    pub behind_header : 96 ≤ start
    pub in_file : start + entry.item_size ≤ length file
    pub decrypted :
        result
        ≡ decrypt_item c
            (subdata file start (start + entry.item_size))
            key
            id
            entry.item_nonce
            (take 96 file)

  module _ (hash_raw : HashRaw) (file : Bytes) (p : BundleParser D)
      (reach : Reach c j hash_raw file p) where
    -- Once a parser is unlocked by a key, whatever calls came before, the decryption of a descriptor
    -- either reports that its identifier is not listed, or decrypts the bytes of the entry that is
    -- listed for it, which lie in the file behind the header: it neither traps nor finds the file
    -- too short.
    pub decrypt-Reach :
        (key : Bytes) (m : Manifest D) (d : ItemDescriptor D)
        → p.master_key ≡ some key
        → p.cached_manifest ≡ some m
        → ((first_index d.id m.items ≡ none)
            × (decrypt c p d ≡ err (thrown (manifest_parse_failed (unknown_item d.id)))))
          ⊎ Range file key d.id m.items (decrypt c p d)
    unfolding decrypt
    decrypt-Reach key m d ek em =
        let v = Reach-IsOpened c j hash_raw file reach in
        let (read, (total, sum, room)) =
          read_manifest-eq-ok p key m (ParserState-manifest p key m v.state ek em) in
        elim (Option-cases (first_index d.id m.items)) [
          | inl missing ↦ inl (missing, rw (ek, em, missing))
          | inr (found, e) ↦
              let f = first_index-Fits d.id m.items (2 ^ 64) 0 total found.0 found.1 sum e in
              let start = manifest_end p + f.front in
              let fits = f.fits in
              let same = ap length v.same_file in
              let end_fits = v.manifest_fits in
              let cap = v.within_cap in
              let call =
                decrypt_at-Fits p key d.id m.items found.0 (total - 0) found.1 f
                  (omega (arith, room, same, end_fits)) (omega (arith, same, cap)) in
              inr (record {
                index = found.0;
                entry = found.1;
                start = start;
                listed = e;
                behind_header = omega arith;
                in_file = omega (arith, fits, room, same, end_fits);
                decrypted =
                    ap₂ (decrypt_unlocked c p d) ek em
                    ∙ ap (decrypt_found c p key d.id m.items) e
                    ∙ (call
                        ∙ ap₂
                            (λ f h.
                              decrypt_item c (subdata f start (start + found.1.item_size)) key d.id
                                found.1.item_nonce h)
                            v.same_file v.header_copied);
              })
        ]

    -- Fail closed: what an unlocked parser returns for a descriptor was encrypted, with the key that
    -- it holds, for the identifier, the listed nonce and the header of the file, and the result of
    -- that encryption stands in the file. The manifest that lists the nonce is valid, and is what the
    -- JSON decoder reads in a text that was sealed in the same way and stands behind the header.
    -- Condition: the laws of CryptoKit.
    pub decrypt-authentic :
        IsCryptography c
        → (key : Bytes) (m : Manifest D) (d : ItemDescriptor D) (plaintext : Bytes)
        → p.master_key ≡ some key
        → p.cached_manifest ≡ some m
        → decrypt c p d ≡ ok plaintext
        → ((entry : ItemDescriptor D) × (start : ℕ) × (index : ℕ) × (first_index d.id m.items
              ≡ some (index, entry))
            × (encrypt_item c plaintext key d.id entry.item_nonce (take 96 file)
                ≡ ok (subdata file start (start + entry.item_size))))
          × IsManifest m
          × ((text : Bytes) × (j.decode text ≡ some m)
              × (seal_gcm c (derive_manifest_key c key) p.header.manifest_nonce text p.header_bytes
                  ≡ ok (manifest_ciphertext p, manifest_tag p)))
    decrypt-authentic l key m d plaintext ek em h =
        let v = Reach-IsOpened c j hash_raw file reach in
        let (read, _) = read_manifest-eq-ok p key m (ParserState-manifest p key m v.state ek em) in
        let (valid, text) =
          decrypt_manifest-eq-ok c l j m key p.header.manifest_nonce p.header_bytes
            (manifest_ciphertext p) (manifest_tag p) read in
        (
          elim (decrypt-Reach key m d ek em) [
            | inl (_, e) ↦ cc (h, e)
            | inr r ↦ (
              r.entry,
              r.start,
              r.index,
              r.listed,
              encrypt_item-decrypt_item c l plaintext key d.id r.entry.item_nonce (take 96 file)
                  (subdata file r.start (r.start + r.entry.item_size)) (sym r.decrypted ∙ h),
            )
          ],
          valid,
          text,
        )

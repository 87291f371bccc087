-- ===== src/Bundle/Parser/States.antt =====
-- The states of a parser: locked, and unlocked by a key.
use security_core.Common.{
  ◌+◌, ◌≡◌, ◌≤◌, refl, subst, none, some, Bytes, length, take, leb, Result, ok, err, >>=-elim,
  guard-eq-ok, arith,
}
use security_core.Bundle.Limits.{validate_total_file_size, validate_total_file_size_iff}
use security_core.Bundle.Failure.{Failure, attempt, attempt-eq-ok}
use security_core.Bundle.Crypto.{Cryptography}
use security_core.Bundle.Header.{parse}
use security_core.Bundle.KeyDerivation.{HashRaw}
use security_core.Bundle.Manifest.{Manifest, Coder}
use security_core.Bundle.Parser.{
  BundleParser, init_parser, manifest_end, read_manifest, keep_unlocked, unlock_with_key, unlock_by,
  unlock, header_key, lock,
}

module _ {D : Type 0} (c : Cryptography) (j : Coder D) where
  -- The key and the manifest are kept together, and the manifest is what the key reads in the file.
  pub data ParserState (p : BundleParser D) : Type 0 where
    locked : p.master_key ≡ none → p.cached_manifest ≡ none → ParserState p
    unlocked :
        (key : Bytes) (m : Manifest D)
        → p.master_key ≡ some key
        → p.cached_manifest ≡ some m
        → read_manifest c j p key ≡ ok m
        → ParserState p

  pub record IsOpened (file : Bytes) (p : BundleParser D) : Type 0 where
    pub same_file : p.file ≡ file
    pub header_parsed : parse file ≡ ok p.header
    pub header_copied : p.header_bytes ≡ take 96 file
    pub manifest_fits : manifest_end p ≤ length file
    pub within_cap : length file ≤ 2147483648
    pub state : ParserState p

  init_parser-IsOpened :
      (file : Bytes) (p : BundleParser D) → init_parser file ≡ ok p → IsOpened file p
  unfolding init_parser
  init_parser-IsOpened file p h =
      >>=-elim (attempt (validate_total_file_size (length file))) h λ done cap h1.
        >>=-elim (attempt (parse file)) h1 λ header parsed h2.
          let (fits, h3) = guard-eq-ok (leb (96 + header.manifest_size) (length file)) _ _ h2 in
          let q : BundleParser D = record {
            header = header;
            file = file;
            header_bytes = take 96 file;
            master_key = none;
            cached_manifest = none;
          } in
          let same : q ≡ p = cc (h3) in
          let limit =
            (validate_total_file_size_iff (length file)).0
              (attempt-eq-ok (validate_total_file_size (length file)) cap) in
          subst (IsOpened file) same (record {
            same_file = refl;
            header_parsed = attempt-eq-ok (parse file) parsed;
            header_copied = refl;
            manifest_fits = ground (arith, fits);
            within_cap = limit;
            state = locked refl refl;
          })

  unlock_with_key-IsOpened :
      (file : Bytes) (p : BundleParser D) (key : Bytes) (r : Result Failure (Manifest D))
      → read_manifest c j p key ≡ r
      → IsOpened file p
      → IsOpened file (keep_unlocked p key r).0
  unfolding read_manifest
  unlock_with_key-IsOpened file p key (err e) h v = v
  unlock_with_key-IsOpened file p key (ok m) h v = record {
    same_file = v.same_file;
    header_parsed = v.header_parsed;
    header_copied = v.header_copied;
    manifest_fits = v.manifest_fits;
    within_cap = v.within_cap;
    state = unlocked key m refl refl h;
  }

  unlock_by-IsOpened :
      (file : Bytes) (p : BundleParser D) (r : Result Failure Bytes)
      → IsOpened file p
      → IsOpened file (unlock_by c j p r).0
  unfolding unlock_with_key
  unlock_by-IsOpened file p (err e) v = v
  unlock_by-IsOpened file p (ok key) v =
      unlock_with_key-IsOpened file p key (read_manifest c j p key) refl v

  module _ (hash_raw : HashRaw) where
    -- The calls that can change a parser. `decrypt` returns no parser.
    pub data Step : BundleParser D → BundleParser D → Type 0 where
      unlocks :
          (p : BundleParser D) (passphrase : Bytes) → Step p (unlock c j hash_raw p passphrase).0
      unlocks_with_key : (p : BundleParser D) (key : Bytes) → Step p (unlock_with_key c j p key).0
      locks : (p : BundleParser D) → Step p (lock p)

    -- The parsers of a file.
    pub data Reach (file : Bytes) : BundleParser D → Type 0 where
      opened : (p : BundleParser D) → init_parser file ≡ ok p → Reach file p
      next : {p q : BundleParser D} → Reach file p → Step p q → Reach file q

    Step-IsOpened :
        {p q : BundleParser D} (file : Bytes) → Step p q → IsOpened file p → IsOpened file q
    unfolding unlock unlock_with_key lock
    Step-IsOpened file (unlocks p passphrase) v =
        unlock_by-IsOpened file p (header_key hash_raw p passphrase) v
    Step-IsOpened file (unlocks_with_key p key) v =
        unlock_with_key-IsOpened file p key (read_manifest c j p key) refl v
    Step-IsOpened file (locks p) v = record {
      same_file = v.same_file;
      header_parsed = v.header_parsed;
      header_copied = v.header_copied;
      manifest_fits = v.manifest_fits;
      within_cap = v.within_cap;
      state = locked refl refl;
    }

    -- Whatever calls are made, the parser keeps its file and the header in it, and it is either locked
    -- or holds a key together with the manifest that this key reads in the file.
    pub Reach-IsOpened : (file : Bytes) {p : BundleParser D} → Reach file p → IsOpened file p
    Reach-IsOpened file (opened p h) = init_parser-IsOpened file p h
    Reach-IsOpened file (next r s) = Step-IsOpened file s (Reach-IsOpened file r)

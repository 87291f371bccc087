-- ===== src/Bundle/Parser/Delivered.antt =====
-- An item of a bundle that was built, decrypted by the unlocked parser.
use security_core.Common.{
  ℕ, ◌+◌, ◌≡◌, ◌≤◌, ◌^◌, sym, ap, ◌∙◌, some, ◌++◌, append_assoc, get_elem?, Distinct, Bytes, length,
  length-append, le→leb, lt→ltb, ok, arith,
}
use security_core.Bundle.Crypto.{Cryptography}
use security_core.Bundle.Crypto.Laws.{IsCryptography}
use security_core.Bundle.Header.{subdata}
use security_core.Bundle.ItemRecord.{decrypt_item}
use security_core.Bundle.ItemRecord.Laws.{decrypt_item-encrypt_item}
use security_core.Bundle.Manifest.{ItemDescriptor, Coder}
use security_core.Bundle.Manifest.Laws.{IsCoder, stored_descriptor}
use security_core.Bundle.Builder.{ItemContent, BundleBuilder}
use security_core.Bundle.Builder.Sealed.{item_ids}
use security_core.Bundle.Builder.Built.{Built}
use security_core.Bundle.Parser.{BundleParser, decrypt_at, decrypt}
use security_core.Bundle.Parser.Sizes.{subdata-append}
use security_core.Bundle.Parser.Open.{length_file, delivered, unlocked_parser}
use security_core.Bundle.Parser.Located.{Located, Sealed-Located}

module _ {D : Type 0} (c : Cryptography) (l : IsCryptography c) (j : Coder D) (b : BundleBuilder D)
    (master salt nonce file : Bytes) (r : Built c j b master salt nonce file) (stored : D → D)
    (k : IsCoder stored j) (distinct : Distinct (item_ids b.items)) where
  abbrev IsLocated : (item : ItemContent D) → ℕ → Type 0
  IsLocated item i = Located stored c master r.header_bytes item i r.staged r.records

  abbrev opened : BundleParser D
  opened = unlocked_parser c l j b master salt nonce file r stored k distinct

  record_section :
      (item : ItemContent D) (i : ℕ) (z : IsLocated item i)
      → let start = 96 + r.header.manifest_size + length z.front in
        (subdata file start (start + z.entry.0.item_size) ≡ z.bytes)
        × (start + z.entry.0.item_size ≤ length file)
  record_section item i z =
      let start = 96 + r.header.manifest_size + length z.front in
      let front = (r.header_bytes ++ (r.ciphertext ++ r.tag)) ++ z.front in
      let whole : file ≡ front ++ (z.bytes ++ z.back) =
        r.parts
        ∙ ap (λ t. r.header_bytes ++ (r.ciphertext ++ (r.tag ++ t))) z.sections
        ∙ ap (λ t. r.header_bytes ++ t)
            (sym (append_assoc r.ciphertext r.tag (z.front ++ (z.bytes ++ z.back))))
        ∙ sym (append_assoc r.header_bytes (r.ciphertext ++ r.tag) (z.front ++ (z.bytes ++ z.back)))
        ∙ sym (
            append_assoc (r.header_bytes ++ (r.ciphertext ++ r.tag)) z.front (z.bytes ++ z.back)) in
      let total = length_file c l j b master salt nonce file r in
      let all = ap length z.sections ∙ length-append z.front (z.bytes ++ z.back) in
      let rest = length-append z.bytes z.back in
      let size = z.size in
      let cut = ap length whole ∙ length-append front (z.bytes ++ z.back) in
      (
        ap (λ f. subdata f start (start + z.entry.0.item_size)) whole
            ∙ subdata-append front z.bytes z.back start (start + z.entry.0.item_size)
                (omega (arith, total, all, cut)) (omega (arith, size)),
        omega (arith, total, all, rest, size),
      )

  decrypt_at-Located :
      (item : ItemContent D) (i : ℕ) (z : IsLocated item i)
      → decrypt_at c opened master
          (delivered c l j b master salt nonce file r stored k distinct).items
          (i, stored_descriptor stored z.entry.0)
        ≡ ok item.plaintext
  unfolding decrypt_at
  decrypt_at-Located item i z =
      let (cut, fits) = record_section item i z in
      let cap = r.within_cap in
      let start = 96 + r.header.manifest_size + length z.front in
      rw
        (
          z.offset (2 ^ 63) (96 + r.header.manifest_size) (omega (arith, fits, cap)),
          lt→ltb (start + z.entry.0.item_size) (2 ^ 63) (omega (arith, fits, cap)),
          le→leb (start + z.entry.0.item_size) (length file) fits,
          cut,
        )
        (ap
            (λ (d : ItemDescriptor D).
              decrypt_item c z.bytes master d.id d.item_nonce r.header_bytes)
            z.describes.0
          ∙ decrypt_item-encrypt_item c l item.plaintext master item.id z.entry.1 r.header_bytes
              z.bytes z.sealed)

  -- Any descriptor with the identifier of the item will do.
  pub decrypt-Built :
      (i : ℕ) (item : ItemContent D) (d : ItemDescriptor D)
      → get_elem? b.items i ≡ some item
      → d.id ≡ item.id
      → decrypt c opened d ≡ ok item.plaintext
  unfolding decrypt
  decrypt-Built i item d e same =
      let z =
        Sealed-Located stored c master r.header_bytes b.items r.staged r.records i item
          r.items_staged r.items_sealed distinct e in
      rw (same, z.found) (decrypt_at-Located item i z)

-- ===== src/Bundle/Parser/Located.antt =====
-- Where an item of a bundle lies: its place in the manifest and the bytes of its record.
use security_core.Common.{
  ℕ, zero, suc, ◌+◌, ◌≡◌, ◌≢◌, ◌<◌, refl, sym, ap, subst, ◌∙◌, some, List, [], ◌∷◌, ◌++◌,
  append_assoc, All, get_elem?, bytes_eq_refl, ne→bytes_eq, Distinct, Bytes, length, length-append,
  take, ok, arith,
}
use security_core.Bundle.Crypto.{Cryptography}
use security_core.Bundle.ItemRecord.{encrypt_item}
use security_core.Bundle.Manifest.{ItemDescriptor}
use security_core.Bundle.Manifest.Laws.{stored_descriptor, stored_items}
use security_core.Bundle.Builder.{ItemContent, descriptors, concat}
use security_core.Bundle.Builder.Sealed.{Describes, Staged, Sealed, item_ids}
use security_core.Bundle.Parser.{add_sizes, shifted, first_index}
use security_core.Bundle.Parser.Sizes.{add_sizes-∷}

module _ {D : Type 0} where
  item_ids-All :
      (P : Bytes → Type 0) (items : List (ItemContent D)) (i : ℕ) (item : ItemContent D)
      → All P (item_ids items)
      → get_elem? items i ≡ some item
      → P item.id
  item_ids-All P [] i item h e = cc
  item_ids-All P (x ∷ items) zero item h e =
      let same : x ≡ item = cc (e) in subst (λ (t : ItemContent D). P t.id) same h.0
  item_ids-All P (x ∷ items) (suc i) item h e = item_ids-All P items i item h.1 e

  first_index-here :
      (id : Bytes) (d : ItemDescriptor D) (items : List (ItemDescriptor D))
      → d.id ≡ id
      → first_index id (d ∷ items) ≡ some (zero, d)
  unfolding first_index
  first_index-here id d items h = rw (h, bytes_eq_refl id)

  first_index-later :
      (id : Bytes) (d : ItemDescriptor D) (items : List (ItemDescriptor D))
      → d.id ≢ id
      → first_index id (d ∷ items) ≡ shifted (first_index id items)
  unfolding first_index
  first_index-later id d items h = rw (ne→bytes_eq d.id id h)

  module _ (stored : D → D) (c : Cryptography) (master header : Bytes) where
    pub record Located (item : ItemContent D) (index : ℕ) (staged : List (ItemDescriptor D × Bytes))
        (records : List Bytes) : Type 0 where
      pub entry : ItemDescriptor D × Bytes
      pub front : Bytes
      pub bytes : Bytes
      pub back : Bytes
      pub found :
          first_index item.id (stored_items stored (descriptors staged))
          ≡ some (index, stored_descriptor stored entry.0)
      pub offset :
          (limit total : ℕ)
          → total + length front < limit
          → add_sizes limit total (take index (stored_items stored (descriptors staged)))
            ≡ ok (total + length front)
      pub sections : concat records ≡ front ++ (bytes ++ back)
      pub sealed : encrypt_item c item.plaintext master item.id entry.1 header ≡ ok bytes
      pub size : length bytes ≡ entry.0.item_size
      pub describes : Describes item entry

    Located-here :
        (item : ItemContent D) (s : ItemDescriptor D × Bytes)
        (staged : List (ItemDescriptor D × Bytes)) (r : Bytes) (records : List Bytes)
        → Describes item s
        → encrypt_item c item.plaintext master item.id s.1 header ≡ ok r
        → length r ≡ s.0.item_size
        → Located item zero (s ∷ staged) (r ∷ records)
    unfolding add_sizes
    Located-here item s staged r records d e n = record {
      entry = s;
      front = [];
      bytes = r;
      back = concat records;
      found =
          first_index-here item.id (stored_descriptor stored s.0)
            (stored_items stored (descriptors staged)) (ap (λ (t : ItemDescriptor D). t.id) d.0);
      offset = λ limit total h. ap ok (omega arith);
      sections = refl;
      sealed = e;
      size = n;
      describes = d;
    }

    Located-later :
        (item : ItemContent D) (i : ℕ) (s : ItemDescriptor D × Bytes)
        (staged : List (ItemDescriptor D × Bytes)) (r : Bytes) (records : List Bytes)
        → s.0.id ≢ item.id
        → length r ≡ s.0.item_size
        → Located item i staged records
        → Located item (suc i) (s ∷ staged) (r ∷ records)
    Located-later item i s staged r records ne n z =
        let split = length-append r z.front in
        record {
          entry = z.entry;
          front = r ++ z.front;
          bytes = z.bytes;
          back = z.back;
          found =
              first_index-later item.id (stored_descriptor stored s.0)
                (stored_items stored (descriptors staged)) ne
              ∙ ap shifted z.found;
          offset = λ limit total h.
              add_sizes-∷ limit total (total + length r) (stored_descriptor stored s.0)
                (take i (stored_items stored (descriptors staged))) (omega (arith, n))
                (omega (arith, split))
              ∙ z.offset limit (total + length r) (omega (arith, split))
              ∙ ap ok (omega (arith, split));
          sections = ap (λ t. r ++ t) z.sections ∙ sym (append_assoc r z.front (z.bytes ++ z.back));
          sealed = z.sealed;
          size = z.size;
          describes = z.describes;
        }

    pub Sealed-Located :
        (items : List (ItemContent D)) (staged : List (ItemDescriptor D × Bytes))
        (records : List Bytes) (i : ℕ) (item : ItemContent D)
        → Staged items staged
        → Sealed c master header items staged records
        → Distinct (item_ids items)
        → get_elem? items i ≡ some item
        → Located item i staged records
    Sealed-Located [] staged records i item t s d e = cc
    Sealed-Located (x ∷ items) [] records i item t s d e = absurd t
    Sealed-Located (x ∷ items) (y ∷ staged) [] i item t s d e = absurd s
    Sealed-Located (x ∷ items) (y ∷ staged) (r ∷ records) zero item t s d e =
        let same : x ≡ item = cc (e) in
        subst (λ z. Located z zero (y ∷ staged) (r ∷ records)) same
          (Located-here x y staged r records t.0 s.0.0 s.0.1)
    Sealed-Located (x ∷ items) (y ∷ staged) (r ∷ records) (suc i) item t s d e =
        Located-later item i y staged r records
          (λ same.
            item_ids-All (λ id. id ≢ x.id) items i item d.0 e
              (sym same ∙ ap (λ (t : ItemDescriptor D). t.id) t.0.0))
          s.0.1 (Sealed-Located items staged records i item t.1 s.1 d.1 e)

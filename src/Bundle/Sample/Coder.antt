-- ===== src/Bundle/Sample/Coder.antt =====
-- A concrete coder in place of JSON. A date is a number of milliseconds that is kept to the second.
use security_core.Common.{
  ℕ, ℤ, pos, negsuc, zero, suc, ◌*◌, ◌/◌, ◌≡◌, refl, sym, ap, ap₂, ◌∙◌, Option, none, some, List,
  [], ◌∷◌, ◌++◌, Bytes, length, get_or, take, drop, take-append, drop-append, append_assoc,
}
use security_core.Bundle.Manifest.{ItemDescriptor, Manifest, Coder}
use security_core.Bundle.Manifest.Laws.{stored_manifest, IsCoder}

abbrev pub whole_seconds : ℕ → ℕ
whole_seconds t = t / 1000 * 1000

abbrev flag {ℓ} : {A : Type ℓ} → Option A → ℕ
flag none = 0
flag (some x) = 1

abbrev value : Option ℕ → ℕ
value none = 0
value (some n) = n

abbrev text : Option Bytes → Bytes
text none = []
text (some xs) = xs

abbrev optional {ℓ} : {A : Type ℓ} → ℕ → A → Option A
optional zero x = none
optional (suc n) x = some x

optional-value : (o : Option ℕ) → optional (flag o) (value o) ≡ o
optional-value none = refl
optional-value (some n) = refl

optional-text : (o : Option Bytes) → optional (flag o) (text o) ≡ o
optional-text none = refl
optional-text (some xs) = refl

abbrev integer : ℕ → ℕ → ℤ
integer zero n = pos n
integer (suc s) n = negsuc n

abbrev is_negative : ℤ → ℕ
is_negative (pos n) = 0
is_negative (negsuc n) = 1

abbrev magnitude : ℤ → ℕ
magnitude (pos n) = n
magnitude (negsuc n) = n

integer-magnitude : (z : ℤ) → integer (is_negative z) (magnitude z) ≡ z
integer-magnitude (pos n) = refl
integer-magnitude (negsuc n) = refl

-- Numbers and the lengths of the texts, then the texts.
abbrev pub write_item : ItemDescriptor ℕ → Bytes
write_item d =
    d.size_bytes
    ∷ d.created_at
    ∷ d.modified_at
    ∷ flag d.ttl_seconds
    ∷ value d.ttl_seconds
    ∷ flag d.ttl_origin_epoch
    ∷ value d.ttl_origin_epoch
    ∷ d.item_size
    ∷ length d.id
    ∷ length d.name
    ∷ length d.mime_type
    ∷ length d.item_nonce
    ∷ (d.id ++ (d.name ++ (d.mime_type ++ d.item_nonce)))

abbrev pub write_items : List (ItemDescriptor ℕ) → Bytes
write_items [] = []
write_items (d ∷ items) = write_item d ++ write_items items

abbrev pub write : Manifest ℕ → Bytes
write m =
    is_negative m.schema_version
    ∷ magnitude m.schema_version
    ∷ m.exported_at
    ∷ flag m.export_label
    ∷ length (text m.export_label)
    ∷ length m.items
    ∷ (text m.export_label ++ write_items m.items)

-- The field at `i`, and the texts from `at` on.
abbrev number : Bytes → ℕ → ℕ
number xs i = get_or xs i 0

-- The texts follow each other, each as long as its number says.
abbrev read_item : Bytes → ItemDescriptor ℕ × Bytes
read_item xs =
    let texts = drop 12 xs in
    let names = drop (number xs 8) texts in
    let types = drop (number xs 9) names in
    let nonces = drop (number xs 10) types in
    (
      record {
        id = take (number xs 8) texts;
        name = take (number xs 9) names;
        mime_type = take (number xs 10) types;
        size_bytes = number xs 0;
        created_at = number xs 1;
        modified_at = number xs 2;
        ttl_seconds = optional (number xs 3) (number xs 4);
        ttl_origin_epoch = optional (number xs 5) (number xs 6);
        item_nonce = take (number xs 11) nonces;
        item_size = number xs 7;
      },
      drop (number xs 11) nonces,
    )

abbrev read_items : ℕ → Bytes → List (ItemDescriptor ℕ)
read_items zero xs = []
read_items (suc n) xs = let r = read_item xs in r.0 ∷ read_items n r.1

abbrev pub read : Bytes → Manifest ℕ
read xs = record {
  schema_version = integer (number xs 0) (number xs 1);
  exported_at = number xs 2;
  export_label = optional (number xs 3) (take (number xs 4) (drop 6 xs));
  items = read_items (number xs 5) (drop (number xs 4) (drop 6 xs));
}

read_item-write_item :
    (d : ItemDescriptor ℕ) (more : Bytes) → read_item (write_item d ++ more) ≡ (d, more)
read_item-write_item d more = rw (
  append_assoc d.id (d.name ++ (d.mime_type ++ d.item_nonce)) more,
  append_assoc d.name (d.mime_type ++ d.item_nonce) more,
  append_assoc d.mime_type d.item_nonce more,
  drop-append d.id (d.name ++ (d.mime_type ++ (d.item_nonce ++ more))) (length d.id) refl,
  take-append d.id (d.name ++ (d.mime_type ++ (d.item_nonce ++ more))) (length d.id) refl,
  drop-append d.name (d.mime_type ++ (d.item_nonce ++ more)) (length d.name) refl,
  take-append d.name (d.mime_type ++ (d.item_nonce ++ more)) (length d.name) refl,
  drop-append d.mime_type (d.item_nonce ++ more) (length d.mime_type) refl,
  take-append d.mime_type (d.item_nonce ++ more) (length d.mime_type) refl,
  drop-append d.item_nonce more (length d.item_nonce) refl,
  take-append d.item_nonce more (length d.item_nonce) refl,
  optional-value d.ttl_seconds,
  optional-value d.ttl_origin_epoch,
)

read_items-write_items :
    (items : List (ItemDescriptor ℕ)) → read_items (length items) (write_items items) ≡ items
read_items-write_items [] = refl
read_items-write_items (d ∷ items) =
    let e = read_item-write_item d (write_items items) in
    ap₂ (λ x y. x ∷ y) (ap (λ r. r.0) e)
      (ap (λ r. read_items (length items) r.1) e ∙ read_items-write_items items)

read-write : (m : Manifest ℕ) → read (write m) ≡ m
read-write m = rw (
  integer-magnitude m.schema_version,
  take-append (text m.export_label) (write_items m.items) (length (text m.export_label)) refl,
  drop-append (text m.export_label) (write_items m.items) (length (text m.export_label)) refl,
  optional-text m.export_label,
  read_items-write_items m.items,
)

abbrev pub toy_coder : Coder ℕ
toy_coder = record {
  encode = λ m. some (write (stored_manifest whole_seconds m));
  decode = λ xs. some (read xs);
}

pub toy_coder-IsCoder : IsCoder whole_seconds toy_coder
toy_coder-IsCoder m bytes h =
    let e : write (stored_manifest whole_seconds m) ≡ bytes = cc (h) in
    ap (λ t. some (read t)) (sym e) ∙ ap some (read-write (stored_manifest whole_seconds m))

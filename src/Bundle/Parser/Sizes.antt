-- ===== src/Bundle/Parser/Sizes.antt =====
-- The sections of a file, and the sum of the item sizes.
use security_core.Common.{
  ℕ, ◌+◌, ◌-◌, ◌≡◌, ◌<◌, sym, ap, ◌∙◌, List, [], ◌∷◌, ◌++◌, Bytes, length, length-append,
  take-append, drop-append, lt→ltb, ok, arith,
}
use security_core.Bundle.Crypto.{Cryptography}
use security_core.Bundle.Header.{subdata}
use security_core.Bundle.Manifest.{ItemDescriptor}
use security_core.Bundle.Manifest.Laws.{stored_descriptor, stored_items}
use security_core.Bundle.Builder.{ItemContent, descriptors, concat}
use security_core.Bundle.Builder.Sealed.{Staged, Sealed}
use security_core.Bundle.Parser.{add_sizes}

pub subdata-append :
    (xs ys zs : Bytes) (from to : ℕ)
    → from ≡ length xs
    → to ≡ from + length ys
    → subdata (xs ++ (ys ++ zs)) from to ≡ ys
subdata-append xs ys zs from to h k =
    rw (drop-append xs (ys ++ zs) from (sym h)) (take-append ys zs (to - from) (omega arith))

module _ {D : Type 0} where
  pub add_sizes-∷ :
      (limit total next : ℕ) (d : ItemDescriptor D) (items : List (ItemDescriptor D))
      → total + d.item_size ≡ next
      → next < limit
      → add_sizes limit total (d ∷ items) ≡ add_sizes limit next items
  unfolding add_sizes
  add_sizes-∷ limit total next d items h small = rw (h, lt→ltb next limit small)

  -- The item sizes of the manifest add up to the length of the records.
  pub add_sizes-Sealed :
      (stored : D → D) (c : Cryptography) (master header : Bytes) (items : List (ItemContent D))
      (staged : List (ItemDescriptor D × Bytes)) (records : List Bytes) (limit total : ℕ)
      → Sealed c master header items staged records
      → Staged items staged
      → total + length (concat records) < limit
      → add_sizes limit total (stored_items stored (descriptors staged))
        ≡ ok (total + length (concat records))
  unfolding add_sizes
  add_sizes-Sealed stored c master header [] [] [] limit total s n h = ap ok (omega arith)
  add_sizes-Sealed stored c master header [] (x ∷ staged) records limit total s n h = absurd n
  add_sizes-Sealed stored c master header [] [] (r ∷ records) limit total s n h = absurd s
  add_sizes-Sealed stored c master header (item ∷ items) [] records limit total s n h = absurd n
  add_sizes-Sealed stored c master header (item ∷ items) (d ∷ staged) [] limit total s n h =
      absurd s
  add_sizes-Sealed stored c master header (item ∷ items) (d ∷ staged) (r ∷ records) limit total s n
        h =
      let split = length-append r (concat records) in
      add_sizes-∷ limit total (total + length r) (stored_descriptor stored d.0)
        (stored_items stored (descriptors staged)) (omega (arith, s.0.1)) (omega (arith, split))
      ∙ add_sizes-Sealed stored c master header items staged records limit (total + length r) s.1
          n.1 (omega (arith, split))
      ∙ ap ok (omega (arith, split))

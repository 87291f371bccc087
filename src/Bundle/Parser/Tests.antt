-- ===== src/Bundle/Parser/Tests.antt =====
-- A run of the parser on the sample bundle, and examples of the theorems about its states.
use security_core.Common.{
  ℕ, ◌+◌, ◌≡◌, refl, subst, some, none, [], ◌∷◌, Bytes, codes, take, replicate, Result, ok, err,
  ◌⊎◌,
}
use security_core.Bundle.Limits.{
  manifest_parse_failed, unknown_item, validate_argon2_params, validate_manifest_size,
  validate_item_size, validate_total_file_size,
}
use security_core.Bundle.Failure.{Failure, thrown}
use security_core.Bundle.Crypto.{derive_manifest_key, derive_item_key, seal_gcm, open_gcm}
use security_core.Bundle.Header.{
  init_header, parse, parse_bytes, check_magic, all_zero, header_at, read_le16, read_le32, subdata,
}
use security_core.Bundle.ItemRecord.{encrypt_item, decrypt_item}
use security_core.Bundle.KeyDerivation.{recommended_default}
use security_core.Bundle.Manifest.{
  ItemDescriptor, Manifest, init_manifest, validate_ttl_consistency, validate_descriptor,
  validate_items, validate_unique, validate, decode_json, decrypt_manifest,
}
use security_core.Bundle.Manifest.Valid.{IsManifest}
use security_core.Bundle.Manifest.Laws.{stored_manifest}
use security_core.Bundle.Builder.{new_header, describe}
use security_core.Bundle.Parser.{
  BundleParser, file_size, init_parser, add_sizes, read_manifest, unlock_with_key, first_index,
  decrypt_at, decrypt,
}
use security_core.Bundle.Parser.Open.{locked_parser}
use security_core.Bundle.Parser.States.{
  unlocks_with_key, Reach, opened, next, IsOpened, Reach-IsOpened,
}
use security_core.Bundle.Parser.Authentic.{
  Range, decrypt-Reach, decrypt-authentic, manifest_ciphertext, manifest_tag,
}
use security_core.Bundle.Sample.{
  toy_cryptography, toy_cryptography-IsCryptography, toy_hash, note, photo,
}
use security_core.Bundle.Sample.Coder.{toy_coder, whole_seconds}
use security_core.Bundle.Sample.Files.{two_items_file}

abbrev locked_sample : BundleParser ℕ
locked_sample =
    locked_parser (new_header recommended_default (replicate 16 7) (replicate 12 8) 125)
      (take 96 two_items_file) two_items_file

abbrev sample_manifest : Manifest ℕ
sample_manifest = stored_manifest whole_seconds (
    init_manifest 1999001 (some (codes "backup"))
      (describe note (replicate 12 9) ∷ describe photo (replicate 12 10) ∷ []))

abbrev unlocked_sample : BundleParser ℕ
unlocked_sample = record locked_sample {
  master_key = some (replicate 32 246);
  cached_manifest = some sample_manifest;
}

init_parser-two_items : init_parser two_items_file ≡ ok locked_sample
unfolding init_parser parse parse_bytes header_at check_magic all_zero read_le16 read_le32
    init_header validate_argon2_params validate_manifest_size validate_total_file_size
init_parser-two_items = refl

unlock-two_items :
    unlock_with_key toy_cryptography toy_coder locked_sample (replicate 32 246)
    ≡ (unlocked_sample, ok sample_manifest)
unfolding unlock_with_key read_manifest decrypt_manifest open_gcm derive_manifest_key decode_json
    validate validate_items validate_descriptor validate_unique validate_item_size
    validate_ttl_consistency add_sizes
unlock-two_items = refl

decrypt-photo :
    decrypt toy_cryptography unlocked_sample (describe photo []) ≡ ok (255 ∷ 216 ∷ 255 ∷ [])
unfolding decrypt first_index decrypt_at add_sizes decrypt_item open_gcm derive_item_key
decrypt-photo = refl

file_size-two_items : file_size unlocked_sample ≡ 261
unfolding file_size
file_size-two_items = refl

unlocked_sample-Reach : Reach toy_cryptography toy_coder toy_hash two_items_file unlocked_sample
unlocked_sample-Reach =
    subst
      (λ (r : BundleParser ℕ × Result Failure (Manifest ℕ)).
        Reach toy_cryptography toy_coder toy_hash two_items_file r.0)
      unlock-two_items
      (next (opened locked_sample init_parser-two_items)
        (unlocks_with_key locked_sample (replicate 32 246)))

Reach-IsOpened_example : IsOpened toy_cryptography toy_coder two_items_file unlocked_sample
Reach-IsOpened_example =
    Reach-IsOpened toy_cryptography toy_coder toy_hash two_items_file unlocked_sample-Reach

decrypt-Reach_example :
    ((first_index (replicate 16 2) sample_manifest.items ≡ none)
      × (decrypt toy_cryptography unlocked_sample (describe photo [])
          ≡ err (thrown (manifest_parse_failed (unknown_item (replicate 16 2))))))
    ⊎ Range toy_cryptography toy_coder two_items_file
        (replicate 32 246)
        (replicate 16 2)
        sample_manifest.items
        (decrypt toy_cryptography unlocked_sample (describe photo []))
decrypt-Reach_example =
    decrypt-Reach toy_cryptography toy_coder toy_hash two_items_file unlocked_sample
      unlocked_sample-Reach (replicate 32 246) sample_manifest (describe photo []) refl refl

decrypt-authentic_example :
    ((entry : ItemDescriptor ℕ) × (start : ℕ) × (index : ℕ) × (first_index
          (replicate 16 2)
          sample_manifest.items
        ≡ some (index, entry))
      × (encrypt_item toy_cryptography
            (255 ∷ 216 ∷ 255 ∷ [])
            (replicate 32 246)
            (replicate 16 2)
            entry.item_nonce
            (take 96 two_items_file)
          ≡ ok (subdata two_items_file start (start + entry.item_size))))
    × IsManifest sample_manifest
    × ((text : Bytes) × (toy_coder.decode text ≡ some sample_manifest)
        × (seal_gcm toy_cryptography
              (derive_manifest_key toy_cryptography (replicate 32 246))
              (replicate 12 8)
              text
              (take 96 two_items_file)
            ≡ ok (manifest_ciphertext unlocked_sample, manifest_tag unlocked_sample)))
decrypt-authentic_example =
    decrypt-authentic toy_cryptography toy_coder toy_hash two_items_file unlocked_sample
      unlocked_sample-Reach toy_cryptography-IsCryptography (replicate 32 246) sample_manifest
      (describe photo []) (255 ∷ 216 ∷ 255 ∷ []) refl refl decrypt-photo

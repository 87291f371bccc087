-- ===== src/Bundle/Header/Valid.antt =====
-- The headers that the throwing initializer accepts.
use security_core.Common.{◌≤◌, ◌≡◌, length, arith, ok, ◌↔◌}
use security_core.Bundle.Limits.{AreParams, validate_argon2_params_iff, validate_manifest_size_iff}
use security_core.Bundle.Header.{BundleHeader, init_header}

pub record IsHeader (h : BundleHeader) : Type 0 where
  pub version_one : h.version ≡ 1
  pub argon2id : h.kdf_id ≡ 1
  pub salt_16 : length h.salt ≡ 16
  pub nonce_12 : length h.manifest_nonce ≡ 12
  pub params : AreParams h.argon2_time_cost h.argon2_memory_kib h.argon2_parallelism
  pub size_range : (16 ≤ h.manifest_size) × (h.manifest_size ≤ 1048576)

pub IsHeader-init_header : (h : BundleHeader) → IsHeader h → init_header h ≡ ok h
unfolding init_header
IsHeader-init_header h v = rw (
  v.version_one,
  v.argon2id,
  v.salt_16,
  v.nonce_12,
  (validate_argon2_params_iff _ _ _).1 v.params,
  (validate_manifest_size_iff _).1 v.size_range,
)

-- The initializer returns the header that it was given, and only a valid one.
pub init_header-IsHeader : (h r : BundleHeader) → init_header h ≡ ok r → (r ≡ h) × IsHeader h
unfolding init_header
init_header-IsHeader h r e = ground (
  arith,
  (validate_argon2_params_iff h.argon2_time_cost h.argon2_memory_kib h.argon2_parallelism).0,
  (validate_manifest_size_iff h.manifest_size).0,
)

-- The throwing initializer gives a header exactly if this is of version 1 and KDF 1, has a salt of
-- 16 and a nonce of 12 bytes, and keeps the limits.
init_header_iff : (h : BundleHeader) → (init_header h ≡ ok h) ↔ IsHeader h
init_header_iff h = ((λ e. (init_header-IsHeader h h e).1), IsHeader-init_header h)

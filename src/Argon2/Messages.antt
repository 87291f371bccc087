-- ===== src/Argon2/Messages.antt =====
-- The code that a message of Sources/CArgon2/argon2.c belongs to.
use security_core.Common.{◌≡◌, refl, sym, ap, ◌∙◌, List, [], ◌∷◌, Bytes, bytes_eq, if◌then◌else◌}
use security_core.Argon2.Types.{
  ErrorCode, argon2_error_message, argon2_ok, output_ptr_null, output_too_short, output_too_long,
  pwd_too_short, pwd_too_long, salt_too_short, salt_too_long, ad_too_short, ad_too_long,
  secret_too_short, secret_too_long, time_too_small, time_too_large, memory_too_little,
  memory_too_much, lanes_too_few, lanes_too_many, pwd_ptr_mismatch, salt_ptr_mismatch,
  secret_ptr_mismatch, ad_ptr_mismatch, memory_allocation_error, free_memory_cbk_null,
  allocate_memory_cbk_null, incorrect_parameter, incorrect_type, out_ptr_mismatch, threads_too_few,
  threads_too_many, missing_args, encoding_fail, decoding_fail, thread_fail, decoding_length_fail,
  verify_mismatch,
}

abbrev all_codes : List ErrorCode
all_codes =
    argon2_ok ∷ output_ptr_null ∷ output_too_short ∷ output_too_long ∷ pwd_too_short ∷ pwd_too_long
    ∷ salt_too_short ∷ salt_too_long ∷ ad_too_short ∷ ad_too_long ∷ secret_too_short
    ∷ secret_too_long ∷ time_too_small ∷ time_too_large ∷ memory_too_little ∷ memory_too_much
    ∷ lanes_too_few ∷ lanes_too_many ∷ pwd_ptr_mismatch ∷ salt_ptr_mismatch ∷ secret_ptr_mismatch
    ∷ ad_ptr_mismatch ∷ memory_allocation_error ∷ free_memory_cbk_null ∷ allocate_memory_cbk_null
    ∷ incorrect_parameter ∷ incorrect_type ∷ out_ptr_mismatch ∷ threads_too_few ∷ threads_too_many
    ∷ missing_args ∷ encoding_fail ∷ decoding_fail ∷ thread_fail ∷ decoding_length_fail
    ∷ verify_mismatch ∷ []

-- The first code with a given message.
find_code : Bytes → List ErrorCode → ErrorCode
find_code m [] = argon2_ok
find_code m (c ∷ cs) = if bytes_eq m (argon2_error_message c) then c else find_code m cs

find_code-argon2_error_message : (c : ErrorCode) → find_code (argon2_error_message c) all_codes ≡ c
unfolding find_code argon2_error_message
find_code-argon2_error_message argon2_ok = refl
find_code-argon2_error_message output_ptr_null = refl
find_code-argon2_error_message output_too_short = refl
find_code-argon2_error_message output_too_long = refl
find_code-argon2_error_message pwd_too_short = refl
find_code-argon2_error_message pwd_too_long = refl
find_code-argon2_error_message salt_too_short = refl
find_code-argon2_error_message salt_too_long = refl
find_code-argon2_error_message ad_too_short = refl
find_code-argon2_error_message ad_too_long = refl
find_code-argon2_error_message secret_too_short = refl
find_code-argon2_error_message secret_too_long = refl
find_code-argon2_error_message time_too_small = refl
find_code-argon2_error_message time_too_large = refl
find_code-argon2_error_message memory_too_little = refl
find_code-argon2_error_message memory_too_much = refl
find_code-argon2_error_message lanes_too_few = refl
find_code-argon2_error_message lanes_too_many = refl
find_code-argon2_error_message pwd_ptr_mismatch = refl
find_code-argon2_error_message salt_ptr_mismatch = refl
find_code-argon2_error_message secret_ptr_mismatch = refl
find_code-argon2_error_message ad_ptr_mismatch = refl
find_code-argon2_error_message memory_allocation_error = refl
find_code-argon2_error_message free_memory_cbk_null = refl
find_code-argon2_error_message allocate_memory_cbk_null = refl
find_code-argon2_error_message incorrect_parameter = refl
find_code-argon2_error_message incorrect_type = refl
find_code-argon2_error_message out_ptr_mismatch = refl
find_code-argon2_error_message threads_too_few = refl
find_code-argon2_error_message threads_too_many = refl
find_code-argon2_error_message missing_args = refl
find_code-argon2_error_message encoding_fail = refl
find_code-argon2_error_message decoding_fail = refl
find_code-argon2_error_message thread_fail = refl
find_code-argon2_error_message decoding_length_fail = refl
find_code-argon2_error_message verify_mismatch = refl

-- Two codes with the same message are the same code: a caller who logs the message loses nothing.
argon2_error_message_injective :
    (a b : ErrorCode) → argon2_error_message a ≡ argon2_error_message b → a ≡ b
argon2_error_message_injective a b h =
    sym (find_code-argon2_error_message a)
    ∙ ap (λ m. find_code m all_codes) h
    ∙ find_code-argon2_error_message b

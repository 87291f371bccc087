-- ===== src/Lib.antt =====
-- Verification of security-core: the UltraLocked bundle format and the Argon2 C target.
--
-- The program. `Sources/UltraLockedFormat` (Swift) builds and reads encrypted bundles: a public
-- header of 96 bytes, an encrypted manifest and encrypted items. The key comes from a passphrase
-- by Argon2id, which the package compiles from C in `Sources/CArgon2` (the reference
-- implementation, with its BLAKE2b). The C code validates a context, lays out a memory of blocks in
-- lanes and segments, fills it pass by pass, where `index_alpha` chooses the blocks that are read,
-- and prints and parses the hash strings `$argon2id$v=..$m=..,t=..,p=..$salt$hash`.
--
-- Files and sources.
--   Bundle/Limits           Sources/UltraLockedFormat/BundleLimits.swift, BundleError.swift
--   Bundle/Header           Sources/UltraLockedFormat/BundleHeader.swift: the throwing initializer
--                           is `init_header`, `serialize` and `parse` keep their names; proofs in
--                           Header/Valid, Header/RoundTrip and Header/Canonical
--   Bundle/Failure          how a call ends without a value: an error of the package or of another
--                           library, or a trap
--   Bundle/Crypto           Sources/UltraLockedFormat/Crypto.swift; what it relies on of CryptoKit is
--                           stated in Crypto/Laws
--   Bundle/ItemRecord       Sources/UltraLockedFormat/ItemRecord.swift; proofs in ItemRecord/Laws
--   Bundle/Random           Sources/UltraLockedFormat/Random.swift
--   Bundle/KeyDerivation    Sources/UltraLockedFormat/Argon2id.swift: `init_parameters`, `derive_key`;
--                           KeyDerivation/Raw has its call of `argon2id_hash_raw`, as `argon2_raw`, and
--                           KeyDerivation/Again compares the keys of two platforms
--   Bundle/Manifest         Sources/UltraLockedFormat/Manifest.swift: the two `validate` methods are
--                           `validate_descriptor` and `validate`; proofs in Manifest/Valid and
--                           Manifest/Laws
--   Bundle/Builder          Sources/UltraLockedFormat/BundleBuilder.swift and ItemContent.swift:
--                           `buildBundle` is `build_bundle`, its loops are `stage_items` and
--                           `encrypt_items`; Builder/Sealed, Builder/Built and Builder/BuiltFrom say
--                           what a bundle consists of, Builder/Returned and Builder/Total are about when it is
--                           returned
--   Bundle/Parser           Sources/UltraLockedFormat/BundleParser.swift: a parser is a record with
--                           the key and the manifest as options, and a method that changes it gives
--                           the new parser and the result of the call. Parser/Open, Parser/Located
--                           and Parser/Delivered follow a built bundle through the parser,
--                           Parser/RoundTrip joins them, and Parser/Platforms does so for two
--                           platforms; Parser/States has the steps of a parser and what is reached by
--                           them, Parser/Fits and Parser/Authentic are about what it then reads;
--                           Parser/Vault is the abstract view of a parser, which Parser/Refinement
--                           compares with the code
--   Bundle/Sample           concrete parameters and builders for the examples
--   Argon2/Types            Sources/CArgon2/include/argon2.h, the messages and names of argon2.c
--   Argon2/Messages         the messages of the error codes
--   Argon2/Validate         `validate_inputs` of Sources/CArgon2/core.c; proofs in Validate/Sound
--   Argon2/Base64           the Base64 functions of Sources/CArgon2/encoding.c; proofs in
--                           Base64/Chars, Base64/Encode and Base64/Decode
--   Argon2/Decimal          `decode_decimal` and `numlen` of Sources/CArgon2/encoding.c; proofs in
--                           Decimal/RoundTrip
--   Argon2/Encoding         `encode_string` and `decode_string` of Sources/CArgon2/encoding.c,
--                           `argon2_encodedlen` of argon2.c; proofs in Encoding/Encode and
--                           Encoding/Decode
--   Argon2/Index            `index_alpha` of Sources/CArgon2/core.c, the instance and the position
--                           of core.h, and the layout that `argon2_ctx` of argon2.c computes; proofs
--                           in Index/Layout and Index/Bounds
--   Argon2/Memory/Block     the functions on blocks of Sources/CArgon2/core.c
--   Argon2/Memory/Fill      blake2/blamka-round-ref.h and `fill_block` of ref.c
--   Argon2/Memory/Segment   `fill_segment` of ref.c; Segment/Place says where it reads and writes,
--                           Segment/Local and Segment/Order what that means for two lanes
--   Argon2/Memory/Passes    `fill_memory_blocks_st` of core.c
--   Argon2/Memory/Init      `initial_hash` of core.c
--   Argon2/Memory/Finalize  `allocate_memory`, `fill_first_blocks` and `finalize` of core.c
--   Argon2/Memory/Platform  what the C code takes from the allocator and the thread library
--   Argon2/Memory/Threads   `fill_memory_blocks` and `fill_memory_blocks_mt` of core.c: the threads of a
--                           slice, each with the local variables of `fill_segment`, do the rounds of its
--                           loop in an order that the platform chooses; proofs in Threads/Invariant,
--                           Threads/Slice and Threads/Refinement
--   Argon2/Memory/Shape     the shape of the memory
--   Argon2/Memory/Determined what the passes depend on, with Determined/Slices; Segment/Reads says which
--                           blocks are read
--   Argon2/Memory/Start     `initialize` of core.c
--   Argon2/Entry            the entry points of argon2.c: `argon2_ctx`, `argon2_verify_ctx`,
--                           `argon2_hash`, `argon2_verify` and those for one type. Entry/Tag has the tag
--                           as one thread computes it, Tag/Computed compares `argon2_ctx` with it;
--                           Entry/Verify is about the comparison, Entry/Stored, Entry/Again and
--                           Entry/RoundTrip about a hash string that is verified, Entry/Reached,
--                           Entry/Total and Entry/Refused about when a hash is returned
--   Argon2/Compare          `argon2_compare` of Sources/CArgon2/argon2.c
--   Argon2/Blake2b/Word     the loads, stores and the rotation of blake2/blake2-impl.h
--   Argon2/Blake2b/Compress the state of blake2/blake2.h, and the compression of blake2/blake2b.c
--   Argon2/Blake2b/Stream   `blake2b_init`, `blake2b_init_key`, `blake2b_update`, `blake2b_final`;
--                           proofs in Stream/Loop, Stream/Update, Stream/Chunks and
--                           Stream/Final
--   Argon2/Blake2b/Hash     `blake2b` and `blake2b_long`; proofs in Hash/Whole, Hash/Size and
--                           Hash/Long
--   Common                  tests, lists over native numbers, results, words and bits
-- The modules named Tests hold evaluated examples and instances of the theorems; Common/Tests holds
-- the Boolean tests.
--
-- Conventions. A byte is a number below 256 and a byte array is a list; a pointer that may be NULL
-- is an `Option`, and its length stands beside it as in C. Words are natural numbers with the
-- wrap-around written out. An error code is a `Result`; a message of the Swift errors is modelled by
-- what it is about. A C string is the list of its characters before the zero byte. `char` is signed,
-- `size_t` and `unsigned long` have 64 bits, and the machine is little-endian.
--
-- Bounds and fuel. The loop of `blake2b_update` has the length of the input as fuel, since a round
-- takes 128 bytes; the loop of `blake2b_long` has the output length, since a round makes 32 bytes;
-- `numlen` has ten rounds and `print_ulong` twenty digits, since the numbers are below 2^32 and
-- 2^64. For `blake2b_update`, `blake2b_long` and `numlen` the theorems below rest on proofs that
-- this is enough. The loop of `fill_segment` runs once for each index that is left in the segment, and
-- the loops over passes, slices and lanes once for each of these, by one thread or by several; a join
-- does the rounds that its thread has left, so that every call returns.
--
-- Parameters. CryptoKit, the JSON coder, the random source and the hash are arguments of the definitions
-- that call them. Theorems that rely on them name what they rely on:
-- `IsCryptography` (key derivation fills its output, AES-GCM seals under a key of 32 bytes and a nonce
-- of 12, and opening inverts sealing in both directions), `IsCoder` (what is encoded is decoded again,
-- with the dates as the coder keeps them), `IsWorking` and `Encodes` (the calls succeed).
-- Bundle/Sample has a concrete value for each. A Swift `Data`, `UUID` or `String` is its bytes, and a
-- date is a value of any type.
--
-- The allocator and the thread library are a `Platform`: which requests for memory and which calls
-- succeed, what stands in a new buffer, and in which order the threads run. `rounds` names the lanes
-- whose threads do a round before each return of the main thread; a join lets the thread that it waits
-- for end. So every order of the rounds of the threads is one platform. `IsPlatform` says that a
-- request is answered by as much memory as was asked for; `Fails` names the failure of a platform that
-- an error code stands for. The hash of Bundle is a parameter that answers the same arguments in the same
-- way; `argon2_raw` makes one of `argon2id_hash_raw` and a platform, and Bundle/Builder/Total and
-- Bundle/Parser/Platforms are about this one.
--
-- Not modelled: the calls of the thread library themselves (thread.c); the freeing of memory and the
-- wiping of memory that is not read again (`free_memory` and `clear_internal_memory` of core.c, with the
-- joins after a thread could not be created); the output of the test vectors under GENKAT.
pub mod Common
pub mod Argon2
pub mod Bundle

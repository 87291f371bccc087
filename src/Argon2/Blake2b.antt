-- ===== src/Argon2/Blake2b.antt =====
-- The hash function of Sources/CArgon2/blake2: the loads, stores and rotation of blake2-impl.h,
-- the state of blake2.h and the functions of blake2b.c. A byte array is a list, a function that
-- returns 0 or -1 gives the new state with `true` or `false`.
pub mod Word
pub mod Compress
pub mod Stream
pub mod Hash
mod Tests

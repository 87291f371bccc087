-- ===== src/Argon2/Memory.antt =====
-- The memory of Argon2 and its filling: blocks, the compression of two blocks, a segment, the
-- passes. Sources/CArgon2/core.c, core.h, ref.c and blake2/blamka-round-ref.h.
pub mod Block
pub mod Fill
pub mod Segment
pub mod Passes
pub mod Init
pub mod Finalize
pub mod Platform
pub mod Threads
pub mod Shape
pub mod Determined
pub mod Start
mod Tests

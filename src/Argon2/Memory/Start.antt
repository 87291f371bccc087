-- ===== src/Argon2/Memory/Start.antt =====
-- The first blocks: `initialize` of core.c.
use security_core.Common.{
  ℕ, zero, suc, ◌+◌, ◌*◌, ◌≡◌, ◌≢◌, ◌<◌, refl, ap, subst, ◌∙◌, ◌⊎◌, inl, inr, Bool, Option, none,
  some, ◌++◌, Bytes, length, length-append, set, if◌then◌else◌, u32, Result, ok, err, lt_or_le,
  arith,
}
use security_core.Argon2.Types.{ErrorCode, Context}
use security_core.Argon2.Index.{Instance}
use security_core.Argon2.Index.Layout.{IsLayout}
use security_core.Argon2.Blake2b.Word.{store32}
use security_core.Argon2.Blake2b.Hash.{blake2b_long}
use security_core.Argon2.Blake2b.Hash.Size.{Answers}
use security_core.Argon2.Blake2b.Hash.Long.{blake2b_long-Answers}
use security_core.Argon2.Memory.Block.{Block, block_size, load_block, load_from}
use security_core.Argon2.Memory.Segment.{Memory, block_at}
use security_core.Argon2.Memory.Segment.Place.{lane_start, lane_end}
use security_core.Argon2.Memory.Platform.{Platform, blocks}
use security_core.Argon2.Memory.Shape.{IsShaped, IsShaped-set}
use security_core.Argon2.Memory.Determined.{Similar, Similar-set}
use security_core.Argon2.Memory.Init.{initial_hash}
use security_core.Argon2.Memory.Finalize.{allocate_memory, first_block, load_if, fill_first_blocks}

-- The buffer `blockhash` after `initial_hash`.
abbrev pub blockhash : Platform → Option Bytes → Bytes
blockhash p none = p.garbage_hash
blockhash p (some hash) = hash

-- The allocator of a context.
abbrev pub allocator : Platform → Context → ℕ → Bool
allocator p c = if c.allocate_cbk then p.allocate_cbk else p.malloc blocks

-- After the allocation.
abbrev pub start_blocks :
    Platform → Instance → Context → Result ErrorCode ℕ → Result ErrorCode Memory × Context
start_blocks p i c (err e) = (err e, c)
start_blocks p i c (ok bytes) =
    let hashed = initial_hash c i.type in
    (
      ok (fill_first_blocks i (blockhash p hashed.0) i.lanes 0 (p.garbage_blocks i.memory_blocks)),
      hashed.1,
    )

-- The memory, and the context that is left. Neither pointer is NULL.
unfoldable pub initialize : Platform → Instance → Context → Result ErrorCode Memory × Context
initialize p i c = start_blocks p i c (allocate_memory (allocator p c) i.memory_blocks block_size)

length-load_from : (count i : ℕ) (input : Bytes) → length (load_from count i input) ≡ count
unfolding load_from
length-load_from zero i input = refl
length-load_from (suc count) i input = ap suc (length-load_from count (i + 1) input)

length-load_block : (input : Bytes) → length (load_block input) ≡ 128
unfolding load_block
length-load_block input = length-load_from 128 0 input

-- The hash of 72 bytes gives the 1024 bytes of a block.
first_block-Answers :
    (hash : Bytes) (counter l : ℕ) → length hash ≡ 64 → Answers 1024 (first_block hash counter l)
unfolding first_block
first_block-Answers hash counter l h =
    let input = hash ++ (store32 counter ++ store32 l) in
    let n : length input ≡ 72 =
      unfold store32 in (length-append hash (store32 counter ++ store32 l) ∙ omega (arith, h)) in
    subst (λ k. Answers 1024 (blake2b_long 1024 (some input) k)) n
      (blake2b_long-Answers 1024 input (omega arith) (omega arith))

module _ (i : Instance) (layout : IsLayout i) (hash : Bytes) (size : length hash ≡ 64) where
  -- What is written does not depend on the old block.
  loaded :
      (counter l : ℕ)
      → (b : Block) × (length b ≡ 128)
        × ((old : Block) → load_if (first_block hash counter l) old ≡ b)
  unfolding Answers load_if
  loaded counter l =
      let (out, e, n) = first_block-Answers hash counter l size in
      (load_block out, length-load_block out, λ old. ap (λ o. load_if o old) e)

  pub fill_first_blocks-IsShaped :
      (count l : ℕ) (m : Memory) → IsShaped i m → IsShaped i (fill_first_blocks i hash count l m)
  unfolding fill_first_blocks
  fill_first_blocks-IsShaped zero l m h = h
  fill_first_blocks-IsShaped (suc count) l m h =
      let (b0, n0, e0) = loaded 0 l in
      let (b1, n1, e1) = loaded 1 l in
      let start = u32 (l * i.lane_length) in
      fill_first_blocks-IsShaped count (l + 1) _ (
        IsShaped-set i layout _ (u32 (start + 1)) _ (ap length (e1 _) ∙ n1)
          (IsShaped-set i layout m start _ (ap length (e0 (block_at m start)) ∙ n0) h))

  -- The first two blocks of the lanes before `l`.
  record IsFirst (l k : ℕ) : Type 0 where
    pub lane : ℕ
    pub place : ℕ
    pub at : k ≡ lane_start i lane + place
    pub lane_low : lane < l
    pub place_low : place < 2

  fill_first_blocks-Similar :
      (count l : ℕ) (m m' : Memory)
      → l + count ≡ i.lanes
      → Similar (IsFirst l) m m'
      → Similar
          (IsFirst i.lanes)
          (fill_first_blocks i hash count l m)
          (fill_first_blocks i hash count l m')
  unfolding fill_first_blocks
  fill_first_blocks-Similar zero l m m' h similar =
      subst (λ x. Similar (IsFirst x) m m') (omega (arith, h)) similar
  fill_first_blocks-Similar (suc count) l m m' h similar =
      let (b0, n0, e0) = loaded 0 l in
      let (b1, n1, e1) = loaded 1 l in
      let start = u32 (l * i.lane_length) in
      let fits = lane_end i layout l (omega (arith, h)) in
      let cap = layout.memory_fits in
      let two = layout.two_blocks in
      let four = layout.four_segments in
      let here : start ≡ lane_start i l = omega (arith, fits, cap) in
      let next : u32 (start + 1) ≡ lane_start i l + 1 = omega (arith, here, fits, cap, two, four) in
      let Middle : ℕ → Type 0 = λ k. IsFirst l k ⊎ (k ≡ start) in
      let old : (k : ℕ) → IsFirst (l + 1) k → k ≢ u32 (start + 1) → Middle k = λ k f ne.
        elim (lt_or_le f.lane l) [
          | inl less ↦ inl (record {
            lane = f.lane;
            place = f.place;
            at = f.at;
            lane_low = less;
            place_low = f.place_low;
          })
          | inr more ↦
              let e : f.lane ≡ l = let low = f.lane_low in omega (arith, low, more) in
              let there : k ≡ lane_start i l + f.place =
                f.at ∙ ap (λ x. lane_start i x + f.place) e in
              let small = f.place_low in inr (omega (arith, there, small, next, here, ne))
        ] in
      let one : Similar Middle (set m start b0) (set m' start b0) =
        Similar-set (IsFirst l) Middle m m' start b0
          (λ k f ne. elim f [ inl q ↦ q | inr e ↦ absurd (ne e) ]) similar in
      let both : Similar (IsFirst (l + 1)) (set (set m start b0) (u32 (start + 1)) b1)
          (set (set m' start b0) (u32 (start + 1)) b1) =
        Similar-set Middle (IsFirst (l + 1)) _ _ (u32 (start + 1)) b1 old one in
      rw
        (
          e0 (block_at m start),
          e0 (block_at m' start),
          e1 (block_at (set m start b0) (u32 (start + 1))),
          e1 (block_at (set m' start b0) (u32 (start + 1))),
        )
        (fill_first_blocks-Similar count (l + 1) _ _ (omega (arith, h)) both)

  -- The first blocks do not depend on what stood in the memory.
  pub fill_first_blocks_determined :
      (m m' : Memory)
      → length m ≡ length m'
      → (lane place : ℕ) → lane < i.lanes
      → place < 2
      → block_at (fill_first_blocks i hash i.lanes 0 m) (lane_start i lane + place)
        ≡ block_at (fill_first_blocks i hash i.lanes 0 m') (lane_start i lane + place)
  fill_first_blocks_determined m m' n lane place low two =
      (fill_first_blocks-Similar i.lanes 0 m m' (omega arith)
          (n, λ k f. let none = f.lane_low in absurd (omega (arith, none)))).1
        (lane_start i lane + place)
        (record { lane = lane; place = place; at = refl; lane_low = low; place_low = two })

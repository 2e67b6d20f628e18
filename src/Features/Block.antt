-- ===== src/Features/Block.antt =====
-- wc3hook/features.c: `feat_write`, the block of features that follows an observation. Memory is a
-- function of the address; the arrays of FeatOut are the bytes that lie there.
pub mod Pieces
pub mod Written
use wc3env.Prelude.{
  ℕ, zero, suc, ◌+◌, ◌-◌, ◌*◌, ◌/◌, ◌%◌, ◌^◌, Bool, ◌&&◌, List, [], ◌∷◌, ◌++◌, if◌then◌else◌, ltb,
  leb, length, get_or, replicate,
}
use wc3env.Prelude.Words.{add32}

abbrev pub Memory : Type 0
Memory = ℕ → ℕ

-- FeatOut, by its bytes. `argument_bits` is by row.
pub record FeatOut : Type 0 where
  pub count : ℕ
  pub scalar_count : ℕ
  pub argument_n : ℕ
  pub actor_n : ℕ
  pub previous_type : Memory
  pub recent : Memory
  pub type_mask : Memory
  pub units : Memory
  pub type : Memory
  pub owner : Memory
  pub order : Memory
  pub queue : Memory
  pub inventory : Memory
  pub buffs : Memory
  pub abilities : Memory
  pub unit_id : Memory
  pub cell : Memory
  pub trees : Memory
  pub scalars : Memory
  pub argument_types : Memory
  pub argument_bits : ℕ → Memory
  pub actor_keys : Memory
  pub actor_rows : Memory

-- The `n` bytes at the address `at`.
pub bytes_at : Memory → ℕ → ℕ → List ℕ
bytes_at m at zero = []
bytes_at m at (suc n) = m at ∷ bytes_at m (at + 1) n

abbrev pub bytes_of : Memory → ℕ → List ℕ
bytes_of m n = bytes_at m 0 n

-- `memcpy(dst + at, ...)` of these bytes; a `memset` is one of zeros.
unfoldable pub memcpy : ℕ → List ℕ → Memory → Memory
memcpy at bytes m i = if leb at i && ltb i (at + length bytes) then get_or bytes (i - at) 0 else m i

-- `(n + 3) & ~3u`.
unfoldable pub round4 : ℕ → ℕ
round4 n = (n + 3) % 2 ^ 32 / 4 * 4

unfoldable pub le32 : ℕ → List ℕ
le32 n = n % 256 ∷ n / 2 ^ 8 % 256 ∷ n / 2 ^ 16 % 256 ∷ n / 2 ^ 24 % 256 ∷ []

abbrev pub header_size : ℕ
header_size = 84

abbrev pub arg_stride : ℕ
arg_stride = 356

-- The parts, with their bytes on DWORDs.
unfoldable pub parts : FeatOut → List (Memory × ℕ)
parts f =
    (f.units, f.count * 69 * 4 % 2 ^ 32)
    ∷ (f.type, f.count * 4 % 2 ^ 32)
    ∷ (f.owner, f.count * 4 % 2 ^ 32)
    ∷ (f.order, f.count * 4 % 2 ^ 32)
    ∷ (f.queue, f.count * 4 % 2 ^ 32)
    ∷ (f.inventory, f.count * 6 * 4 % 2 ^ 32)
    ∷ (f.buffs, f.count * 8 * 4 % 2 ^ 32)
    ∷ (f.abilities, f.count * 5 * 4 % 2 ^ 32)
    ∷ (f.unit_id, f.count * 4 % 2 ^ 32)
    ∷ (f.cell, f.count * 4 % 2 ^ 32)
    ∷ (f.trees, 128 * 128)
    ∷ (f.scalars, f.scalar_count * 4 % 2 ^ 32)
    ∷ (f.argument_types, f.argument_n * 4 % 2 ^ 32)
    ∷ []

pub add_parts : List (Memory × ℕ) → ℕ → ℕ
add_parts [] size = size
add_parts ((p, bytes) ∷ rest) size = add_parts rest (add32 size (round4 bytes))

pub block_size : FeatOut → ℕ
block_size f =
    add32 (add_parts (parts f) header_size)
      ((f.argument_n * arg_stride + f.actor_n * 4 + f.actor_n * 32) % 2 ^ 32)

unfoldable pub header : FeatOut → ℕ → List ℕ
header f size =
    le32 0x3154_4657
    ++ (le32 1
        ++ (le32 size
            ++ (le32 f.count
                ++ (le32 f.scalar_count
                    ++ (le32 f.argument_n
                        ++ (le32 f.actor_n
                            ++ (bytes_of f.previous_type 16
                                ++ (bytes_of f.recent 16
                                    ++ (bytes_of f.type_mask 21 ++ replicate 3 0)))))))))

-- A loop gives the memory and the place that it comes to.
pub write_parts : List (Memory × ℕ) → ℕ → Memory → Memory × ℕ
write_parts [] at m = (m, at)
write_parts ((p, bytes) ∷ rest) at m =
    write_parts rest (add32 at (round4 bytes))
      (memcpy (at + bytes) (replicate (round4 bytes - bytes) 0) (memcpy at (bytes_of p bytes) m))

-- The argument bits of the rows from `a` on.
pub write_arguments : (ℕ → Memory) → ℕ → ℕ → ℕ → Memory → Memory × ℕ
write_arguments bits a zero at m = (m, at)
write_arguments bits a (suc left) at m =
    write_arguments bits (suc a) left (add32 at arg_stride)
      (memcpy (at + 354) (replicate 2 0) (memcpy at (bytes_of (bits a) 354) m))

-- The keys and the rows of the actors, at the place that was come to.
pub write_actors : FeatOut → Memory × ℕ → Memory
write_actors f (m, at) =
    memcpy (add32 at (f.actor_n * 4 % 2 ^ 32)) (bytes_of f.actor_rows (f.actor_n * 32 % 2 ^ 32))
      (memcpy at (bytes_of f.actor_keys (f.actor_n * 4 % 2 ^ 32)) m)

pub write_tables : FeatOut → Memory × ℕ → Memory
write_tables f (m, at) = write_actors f (write_arguments f.argument_bits 0 f.argument_n at m)

-- The memory, and the size: 0 if the block does not fit in `room` bytes.
pub feat_write : FeatOut → ℕ → Memory → Memory × ℕ
feat_write f room m =
    let size = block_size f in
    if ltb room size
    then (m, 0)
    else (write_tables f (write_parts (parts f) header_size (memcpy 0 (header f size) m)), size)

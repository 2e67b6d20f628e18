-- ===== src/Features/Block/Written.antt =====
-- wc3hook/features.c: what `feat_write` leaves in memory.

use mathlib.Core.List.{append_assoc}
use wc3env.Prelude.{
  ℕ, zero, suc, ◌+◌, ◌*◌, ◌%◌, ◌^◌, ◌≤◌, ◌<◌, ◌≡◌, refl, sym, ap, ◌∙◌, List, [], ◌∷◌, ◌++◌, lt→ltb,
  ge→ltb, arith, length, length-append, replicate,
}
use wc3env.Prelude.Words.{add32}
use wc3env.Features.Block.{
  Memory, FeatOut, bytes_at, bytes_of, memcpy, round4, header_size, arg_stride, parts, add_parts,
  block_size, header, le32, write_parts, write_actors, write_tables, feat_write,
}
use wc3env.Features.Block.Pieces.{
  length-bytes_at, memcpy-append, round4_bounds, padded, length-padded, all_parts, all_arguments,
  AreSmall, written, write_parts-written, row_length, write_arguments-written,
}

-- The block: the header, every array up to a multiple of four bytes, and the tables of the masks.
pub block : FeatOut → List ℕ
block f =
    ((header f (block_size f) ++ all_parts (parts f))
      ++ all_arguments f.argument_bits 0 f.argument_n)
    ++ (bytes_of f.actor_keys (f.actor_n * 4) ++ bytes_of f.actor_rows (f.actor_n * 32))

-- What the arrays of FeatOut have room for.
pub record IsFilled (f : FeatOut) : Type 0 where
  pub count : f.count ≤ 256
  pub scalar_count : f.scalar_count ≤ 2048
  pub argument_n : f.argument_n ≤ 21
  pub actor_n : f.actor_n ≤ 4096

length-header : (f : FeatOut) (size : ℕ) → length (header f size) ≡ header_size
unfolding header le32 bytes_at
length-header f size = refl

length-all_arguments :
    (bits : ℕ → Memory) (a left : ℕ) → length (all_arguments bits a left) ≡ left * arg_stride
unfolding all_arguments
length-all_arguments bits a zero = omega arith
length-all_arguments bits a (suc left) = omega (
  arith,
  row_length (bits a),
  length-all_arguments bits (suc a) left,
  length-append {0} (bytes_of (bits a) 354 ++ replicate 2 0) (all_arguments bits (suc a) left),
)

add_parts-length :
    (ps : List (Memory × ℕ)) (size : ℕ)
    → AreSmall ps
    → size + length (all_parts ps) < 2 ^ 32
    → add_parts ps size ≡ size + length (all_parts ps)
unfolding add_parts all_parts
add_parts-length [] size s h = omega arith
add_parts-length ((p, n) ∷ rest) size s h =
    ap (add_parts rest) here
    ∙ add_parts-length rest (size + round4 n) s.1
        (omega (arith, h, length-padded p n s.0, length-append {0} (padded p n) (all_parts rest)))
    ∙ omega (arith, length-padded p n s.0, length-append {0} (padded p n) (all_parts rest))
  where
    here : add32 size (round4 n) ≡ size + round4 n
    here = omega (arith, h, length-padded p n s.0, length-append {0} (padded p n) (all_parts rest))

-- At most three bytes of zeros for each part.
abbrev weight : List (Memory × ℕ) → ℕ
weight [] = 0
weight (p ∷ rest) = p.1 + 3 + weight rest

length-all_parts : (ps : List (Memory × ℕ)) → AreSmall ps → length (all_parts ps) ≤ weight ps
unfolding all_parts
length-all_parts [] s = omega arith
length-all_parts ((p, n) ∷ rest) s = omega (
  arith,
  length-all_parts rest s.1,
  length-padded p n s.0,
  (round4_bounds n s.0).1,
  length-append {0} (padded p n) (all_parts rest),
)

module _ (f : FeatOut) (v : IsFilled f) where
  parts-AreSmall : AreSmall (parts f)
  unfolding parts
  parts-AreSmall = omega arith

  weight-parts : weight (parts f) ≤ 200000
  unfolding parts
  weight-parts = omega (arith, v.count, v.scalar_count, v.argument_n)

  few_parts : length (all_parts (parts f)) ≤ 200000
  few_parts = omega (arith, weight-parts, length-all_parts (parts f) parts-AreSmall)

  abbrev front : List ℕ
  front = header f (block_size f) ++ all_parts (parts f)

  abbrev tables : List ℕ
  tables = all_arguments f.argument_bits 0 f.argument_n

  abbrev actors : List ℕ
  actors = bytes_of f.actor_keys (f.actor_n * 4) ++ bytes_of f.actor_rows (f.actor_n * 32)

  length-front : length front ≡ header_size + length (all_parts (parts f))
  length-front = omega (
    arith,
    length-append {0} (header f (block_size f)) (all_parts (parts f)),
    length-header f (block_size f),
  )

  length-actors : length actors ≡ f.actor_n * 36
  length-actors = omega (
    arith,
    length-append {0} (bytes_of f.actor_keys (f.actor_n * 4))
        (bytes_of f.actor_rows (f.actor_n * 32)),
    length-bytes_at f.actor_keys 0 (f.actor_n * 4),
    length-bytes_at f.actor_rows 0 (f.actor_n * 32),
  )

  length-block :
      length (block f)
      ≡ header_size + length (all_parts (parts f)) + f.argument_n * arg_stride + f.actor_n * 36
  unfolding block
  length-block = omega (
    arith,
    length-front,
    length-actors,
    length-all_arguments f.argument_bits 0 f.argument_n,
    length-append {0} (front ++ tables) actors,
    length-append {0} front tables,
  )

  block_size-length : block_size f ≡ length (block f)
  unfolding block_size
  block_size-length = omega (
    arith,
    few_parts,
    v.argument_n,
    v.actor_n,
    length-block,
    add_parts-length (parts f) header_size parts-AreSmall (omega (arith, few_parts)),
  )

  actors_written :
      (xs : List ℕ) (m : Memory)
      → length xs ≤ 300000
      → write_actors f (written xs m) ≡ memcpy 0 (xs ++ actors) m
  unfolding write_actors
  actors_written xs m h =
      ap
        (λ n.
          memcpy (add32 (length xs) n) (bytes_of f.actor_rows (f.actor_n * 32 % 2 ^ 32))
            (memcpy (length xs) (bytes_of f.actor_keys n) (memcpy 0 xs m)))
        keys
      ∙ ap
          (λ n.
            memcpy (add32 (length xs) (f.actor_n * 4)) (bytes_of f.actor_rows n)
              (memcpy (length xs) (bytes_of f.actor_keys (f.actor_n * 4)) (memcpy 0 xs m)))
          rows
      ∙ ap (memcpy (add32 (length xs) (f.actor_n * 4)) (bytes_of f.actor_rows (f.actor_n * 32)))
          (memcpy-append xs (bytes_of f.actor_keys (f.actor_n * 4)) m)
      ∙ ap
          (λ at.
            memcpy at (bytes_of f.actor_rows (f.actor_n * 32))
              (memcpy 0 (xs ++ bytes_of f.actor_keys (f.actor_n * 4)) m))
          here
      ∙ memcpy-append (xs ++ bytes_of f.actor_keys (f.actor_n * 4))
          (bytes_of f.actor_rows (f.actor_n * 32)) m
      ∙ ap (λ l. memcpy 0 l m)
          (append_assoc xs (bytes_of f.actor_keys (f.actor_n * 4))
            (bytes_of f.actor_rows (f.actor_n * 32)))
    where
      keys : f.actor_n * 4 % 2 ^ 32 ≡ f.actor_n * 4
      keys = omega (arith, v.actor_n)

      rows : f.actor_n * 32 % 2 ^ 32 ≡ f.actor_n * 32
      rows = omega (arith, v.actor_n)

      here :
          add32 (length xs) (f.actor_n * 4) ≡ length (xs ++ bytes_of f.actor_keys (f.actor_n * 4))
      here = omega (
        arith,
        h,
        v.actor_n,
        length-append {0} xs (bytes_of f.actor_keys (f.actor_n * 4)),
        length-bytes_at f.actor_keys 0 (f.actor_n * 4),
      )

  all_written :
      (m : Memory)
      → write_tables f (write_parts (parts f) header_size (memcpy 0 (header f (block_size f)) m))
        ≡ memcpy 0 (block f) m
  unfolding write_tables block
  all_written m =
      ap (λ at. write_tables f (write_parts (parts f) at (memcpy 0 (header f (block_size f)) m)))
        (sym (length-header f (block_size f)))
      ∙ ap (write_tables f) (
          write_parts-written (parts f) (header f (block_size f)) m parts-AreSmall
            (omega (arith, few_parts, length-header f (block_size f))))
      ∙ ap (write_actors f) (
          write_arguments-written f.argument_bits 0 f.argument_n front m
            (omega (arith, few_parts, length-front, v.argument_n)))
      ∙ actors_written (front ++ tables) m (
          omega (
            arith,
            few_parts,
            length-front,
            v.argument_n,
            length-append {0} front tables,
            length-all_arguments f.argument_bits 0 f.argument_n,
          ))

  -- Where the arrays hold no more than they have room for, a block that fits is written whole, from the
  -- start on and byte for byte: the header, with the block's size in it, every array padded with zeros
  -- to a multiple of four bytes, the rows of argument bits, each of 356 bytes, and the keys and the rows of
  -- the actors; nothing behind it changes, no size overflows, and its length is the result. A block that
  -- does not fit changes nothing, and the result is 0.
  pub feat_write-IsBlock :
      (room : ℕ) (m : Memory)
      → (length (block f) ≤ room → feat_write f room m ≡ (memcpy 0 (block f) m, length (block f)))
        × (room < length (block f) → feat_write f room m ≡ (m, 0))
  unfolding feat_write
  feat_write-IsBlock room m = (
    λ h.
        rw (ge→ltb room (block_size f) (omega (arith, h, block_size-length)))
          (λ i. (all_written m i, block_size-length i)),
    λ h. rw (lt→ltb room (block_size f) (omega (arith, h, block_size-length))) refl,
  )

-- ===== src/Features/Block/Pieces.antt =====
-- wc3hook/features.c: the pieces that `feat_write` copies one after the other.
use mathlib.Core.Path.{fun_ext}
use mathlib.Core.List.{append_assoc, append-nil}
use wc3env.Prelude.{
  ℕ, zero, suc, ◌+◌, ◌-◌, ◌*◌, ◌%◌, ◌^◌, ◌≤◌, ◌<◌, ◌≡◌, inl, inr, refl, sym, ap, ◌∙◌, List, [], ◌∷◌,
  ◌++◌, ltb, ltb→lt, ltb→ge, arith, Bool-cases, length, length-append, length-replicate, get_or,
  replicate, All,
}
use wc3env.Prelude.Words.{add32}
use wc3env.Features.Block.{
  Memory, bytes_at, bytes_of, memcpy, round4, arg_stride, write_parts, write_arguments,
}

pub length-bytes_at : (m : Memory) (at n : ℕ) → length (bytes_at m at n) ≡ n
unfolding bytes_at
length-bytes_at m at zero = refl
length-bytes_at m at (suc n) = ap suc (length-bytes_at m (at + 1) n)

get_or-append_left :
    (xs ys : List ℕ) (i : ℕ) → i < length xs → get_or (xs ++ ys) i 0 ≡ get_or xs i 0
get_or-append_left [] ys i h = absurd (omega arith)
get_or-append_left (x ∷ xs) ys zero h = refl
get_or-append_left (x ∷ xs) ys (suc i) h = get_or-append_left xs ys i (omega arith)

get_or-append_right :
    (xs ys : List ℕ) (i : ℕ) → length xs ≤ i → get_or (xs ++ ys) i 0 ≡ get_or ys (i - length xs) 0
get_or-append_right [] ys i h = ap (λ k. get_or ys k 0) (omega arith)
get_or-append_right (x ∷ xs) ys zero h = absurd (omega arith)
get_or-append_right (x ∷ xs) ys (suc i) h =
    get_or-append_right xs ys i (omega arith) ∙ ap (λ k. get_or ys k 0) (omega arith)

-- One copy after another is one of all the bytes.
pub memcpy-append :
    (xs ys : List ℕ) (m : Memory) → memcpy (length xs) ys (memcpy 0 xs m) ≡ memcpy 0 (xs ++ ys) m
unfolding memcpy
memcpy-append xs ys m = fun_ext λ i. elim (Bool-cases (ltb i (length xs))) [
  | inl l ↦ ground (
    arith,
    get_or-append_left xs ys i (ltb→lt i (length xs) l),
    length-append {0} xs ys,
    ltb→lt i (length xs) l,
  )
  | inr l ↦ ground (
    arith,
    get_or-append_right xs ys i (ltb→ge i (length xs) l),
    length-append {0} xs ys,
    ltb→ge i (length xs) l,
  )
]

pub round4_bounds :
    (n : ℕ) → n + 3 < 2 ^ 32 → (n ≤ round4 n) × (round4 n ≤ n + 3) × (round4 n % 4 ≡ 0)
unfolding round4
round4_bounds n h = (omega arith, omega arith, omega arith)

-- A part, and zeros up to a multiple of four bytes.
unfoldable pub padded : Memory → ℕ → List ℕ
padded p n = bytes_of p n ++ replicate (round4 n - n) 0

pub length-padded : (p : Memory) (n : ℕ) → n + 3 < 2 ^ 32 → length (padded p n) ≡ round4 n
unfolding padded
length-padded p n h = omega (
  arith,
  length-append {0} (bytes_of p n) (replicate (round4 n - n) 0),
  length-bytes_at p 0 n,
  length-replicate {0} (round4 n - n) zero,
  (round4_bounds n h).0,
)

unfoldable pub all_parts : List (Memory × ℕ) → List ℕ
all_parts [] = []
all_parts ((p, bytes) ∷ rest) = padded p bytes ++ all_parts rest

unfoldable pub all_arguments : (ℕ → Memory) → ℕ → ℕ → List ℕ
all_arguments bits a zero = []
all_arguments bits a (suc left) =
    (bytes_of (bits a) 354 ++ replicate 2 0) ++ all_arguments bits (suc a) left

abbrev pub AreSmall : List (Memory × ℕ) → Type 0
AreSmall = All (λ p. p.1 + 3 < 2 ^ 32)

-- What is in memory once the bytes `xs` are written from the start on.
abbrev pub written : List ℕ → Memory → Memory × ℕ
written xs m = (memcpy 0 xs m, length xs)

part_written :
    (xs : List ℕ) (m p : Memory) (n : ℕ)
    → memcpy
        (length xs + n)
        (replicate (round4 n - n) 0)
        (memcpy (length xs) (bytes_of p n) (memcpy 0 xs m))
      ≡ memcpy 0 (xs ++ padded p n) m
unfolding padded
part_written xs m p n =
    ap (memcpy (length xs + n) (replicate (round4 n - n) 0)) (memcpy-append xs (bytes_of p n) m)
    ∙ ap (λ at. memcpy at (replicate (round4 n - n) 0) (memcpy 0 (xs ++ bytes_of p n) m))
        (omega (arith, length-append {0} xs (bytes_of p n), length-bytes_at p 0 n))
    ∙ memcpy-append (xs ++ bytes_of p n) (replicate (round4 n - n) 0) m
    ∙ ap (λ l. memcpy 0 l m) (append_assoc xs (bytes_of p n) (replicate (round4 n - n) 0))

pub write_parts-written :
    (ps : List (Memory × ℕ)) (xs : List ℕ) (m : Memory)
    → AreSmall ps
    → length xs + length (all_parts ps) < 2 ^ 32
    → write_parts ps (length xs) (memcpy 0 xs m) ≡ written (xs ++ all_parts ps) m
unfolding write_parts all_parts
write_parts-written [] xs m s h = ap (λ l. written l m) (sym (append-nil xs))
write_parts-written ((p, n) ∷ rest) xs m s h =
    ap (write_parts rest (add32 (length xs) (round4 n))) (part_written xs m p n)
    ∙ ap (λ at. write_parts rest at (memcpy 0 (xs ++ padded p n) m)) here
    ∙ write_parts-written rest (xs ++ padded p n) m s.1 (
        omega (
          arith,
          h,
          length-append {0} xs (padded p n),
          length-append {0} (padded p n) (all_parts rest),
        ))
    ∙ ap (λ l. written l m) (append_assoc xs (padded p n) (all_parts rest))
  where
    here : add32 (length xs) (round4 n) ≡ length (xs ++ padded p n)
    here = omega (
      arith,
      h,
      length-padded p n s.0,
      length-append {0} xs (padded p n),
      length-append {0} (padded p n) (all_parts rest),
    )

pub row_length : (p : Memory) → length (bytes_of p 354 ++ replicate {A = ℕ} 2 0) ≡ arg_stride
row_length p =
    omega (arith, length-append {0} (bytes_of p 354) (replicate 2 0), length-bytes_at p 0 354)

row_written :
    (xs : List ℕ) (m p : Memory)
    → memcpy (length xs + 354) (replicate 2 0) (memcpy (length xs) (bytes_of p 354) (memcpy 0 xs m))
      ≡ memcpy 0 (xs ++ (bytes_of p 354 ++ replicate 2 0)) m
row_written xs m p =
    ap (memcpy (length xs + 354) (replicate 2 0)) (memcpy-append xs (bytes_of p 354) m)
    ∙ ap (λ at. memcpy at (replicate 2 0) (memcpy 0 (xs ++ bytes_of p 354) m))
        (omega (arith, length-append {0} xs (bytes_of p 354), length-bytes_at p 0 354))
    ∙ memcpy-append (xs ++ bytes_of p 354) (replicate 2 0) m
    ∙ ap (λ l. memcpy 0 l m) (append_assoc xs (bytes_of p 354) (replicate 2 0))

pub write_arguments-written :
    (bits : ℕ → Memory) (a left : ℕ) (xs : List ℕ) (m : Memory)
    → length xs + left * arg_stride < 2 ^ 32
    → write_arguments bits a left (length xs) (memcpy 0 xs m)
      ≡ written (xs ++ all_arguments bits a left) m
unfolding write_arguments all_arguments
write_arguments-written bits a zero xs m h = ap (λ l. written l m) (sym (append-nil xs))
write_arguments-written bits a (suc left) xs m h =
    ap (write_arguments bits (suc a) left (add32 (length xs) arg_stride))
      (row_written xs m (bits a))
    ∙ ap (λ at. write_arguments bits (suc a) left at (memcpy 0 (xs ++ row) m)) here
    ∙ write_arguments-written bits (suc a) left (xs ++ row) m
        (omega (arith, h, length-append {0} xs row, row_length (bits a)))
    ∙ ap (λ l. written l m) (append_assoc xs row (all_arguments bits (suc a) left))
  where
    row : List ℕ
    row = bytes_of (bits a) 354 ++ replicate 2 0

    here : add32 (length xs) arg_stride ≡ length (xs ++ row)
    here = omega (arith, h, length-append {0} xs row, row_length (bits a))

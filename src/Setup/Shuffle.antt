-- ===== src/Setup/Shuffle.antt =====
-- wc3hook/setup.c: the shuffle moves the start locations among themselves.
use wc3env.Prelude.{
  ℕ, zero, suc, ◌+◌, ◌%◌, ◌<◌, ◌≡◌, inl, inr, refl, sym, ◌∙◌, ap, Bool, List, [], ◌∷◌,
  if◌then◌else◌, ◌==◌, length, set, get_or, length-set, get_or-set_self, get_or-set_ne, arith,
  Bool-cases, ==→eq, ==→ne,
}
use wc3env.Setup.{swap, permute, next_random}
use native.Mathlib.Nat.{mod-lt}

abbrev pub one_if : Bool → ℕ
one_if b = if b then 1 else 0

abbrev pub count : ℕ → List ℕ → ℕ
count n [] = 0
count n (x ∷ xs) = one_if (n == x) + count n xs

count-set :
    (n i v : ℕ) (xs : List ℕ)
    → i < length xs
    → count n (set xs i v) + one_if (n == get_or xs i 0) ≡ count n xs + one_if (n == v)
count-set n i v [] h = absurd (omega arith)
count-set n zero v (x ∷ xs) h = omega arith
count-set n (suc i) v (x ∷ xs) h = omega (arith, count-set n i v xs (omega arith))

second : (i j b : ℕ) (xs : List ℕ) → i < length xs → get_or xs j 0 ≡ b → get_or (set xs i b) j 0 ≡ b
second i j b xs h e = elim (Bool-cases (i == j)) [
  | inl t ↦ ap (λ k. get_or (set xs i b) k 0) (sym (==→eq i j t)) ∙ get_or-set_self xs i b 0 h
  | inr t ↦ get_or-set_ne xs i j b 0 (==→ne i j t) ∙ e
]

count-swap :
    (n i j : ℕ) (xs : List ℕ) → i < length xs → j < length xs → count n (swap i j xs) ≡ count n xs
unfolding swap
count-swap n i j xs hi hj =
    let a = get_or xs i 0 in
    let b = get_or xs j 0 in
    omega (
      arith,
      count-set n i b xs hi,
      count-set n j a (set xs i b) (omega (arith, length-set xs i b)),
      ap (λ m. one_if (n == m)) (second i j b xs hi refl),
    )

length-swap : (i j : ℕ) (xs : List ℕ) → length (swap i j xs) ≡ length xs
unfolding swap
length-swap i j xs =
    length-set (set xs i (get_or xs j 0)) j (get_or xs i 0) ∙ length-set xs i (get_or xs j 0)

above_one : (k : ℕ) → 0 < k + 2
above_one k = omega arith

-- Whatever the seed, the shuffle permutes: the list that it makes has every location as often as
-- the list that it was given, and the same length.
pub permute-count :
    (k state n : ℕ) (xs : List ℕ)
    → k < length xs
    → (count n (permute k state xs) ≡ count n xs) × (length (permute k state xs) ≡ length xs)
unfolding permute
permute-count zero state n xs h = (refl, refl)
permute-count (suc k) state n xs h =
    let j = next_random state % (k + 2) in
    let ys = swap (suc k) j xs in
    let inside : j < length xs = omega (arith, mod-lt (next_random state) (above_one k)) in
    let l = length-swap (suc k) j xs in
    let rest = permute-count k (next_random state) n ys (omega (arith, l)) in
    (rest.0 ∙ count-swap n (suc k) j xs h inside, rest.1 ∙ l)

-- ===== src/Masks/Allowed/Bits.antt =====
-- wc3hook/masks.c: the packed bits as a set of numbers.
use Prim.Native.Nat.{bit_or}
use wc3env.Prelude.{
  ℕ, zero, suc, ◌+◌, ◌-◌, ◌*◌, ◌/◌, ◌%◌, ◌^◌, ◌<◌, ◌≡◌, inl, inr, refl, sym, ap, ◌∙◌, Bool, true,
  false, ◌&&◌, ◌||◌, ltb, ◌==◌, ==→eq, ==→ne, eq→==, ne→==, ltb→lt, arith, Bool-cases,
}
use wc3env.Prelude.Words.{test_bit}
use wc3env.Masks.Allowed.{set_bit, bit_at}

-- Every byte is checked by evaluation.
all_below : ℕ → (ℕ → Bool) → Bool
all_below zero p = true
all_below (suc n) p = p n && all_below n p

all_below-at : (n : ℕ) (p : ℕ → Bool) (x : ℕ) → all_below n p ≡ true → x < n → p x ≡ true
unfolding all_below
all_below-at zero p x h l = absurd (omega arith)
all_below-at (suc n) p x h l = ground (arith, all_below-at n p x)

abbrev same : Bool → Bool → Bool
same true b = b
same false true = false
same false false = true

-- Of the byte x / 64, with the bit x / 8 % 8 set, the bit x % 8.
abbrev byte_law : ℕ → Bool
byte_law x =
    same (test_bit (bit_or (x / 64) (128 / 2 ^ (x / 8 % 8))) (7 - x % 8))
      (x / 8 % 8 == x % 8 || test_bit (x / 64) (7 - x % 8))
    && ltb (bit_or (x / 64) (128 / 2 ^ (x / 8 % 8))) 256

byte_table : all_below 16384 byte_law ≡ true
unfolding all_below
byte_table = refl

law_parts : (a b : Bool) (n : ℕ) → (same a b && ltb n 256) ≡ true → (a ≡ b) × (n < 256)
law_parts true true n h = (refl, ltb→lt n 256 h)
law_parts true false n h = absurd (ground arith)
law_parts false true n h = absurd (ground arith)
law_parts false false n h = (refl, ltb→lt n 256 h)

byte_or :
    (b p q : ℕ)
    → b < 256
    → p < 8
    → q < 8
    → (test_bit (bit_or b (128 / 2 ^ p)) (7 - q) ≡ (p == q || test_bit b (7 - q)))
      × (bit_or b (128 / 2 ^ p) < 256)
byte_or b p q hb hp hq =
    let e : (b * 64 + p * 8 + q) / 64 ≡ b = omega arith in
    let f : (b * 64 + p * 8 + q) / 8 % 8 ≡ p = omega arith in
    let g : (b * 64 + p * 8 + q) % 8 ≡ q = omega arith in
    law_parts _ _ _ (
      rw g at rw f at rw e at
        (all_below-at 16384 byte_law (b * 64 + p * 8 + q) byte_table (omega arith)))

abbrev pub AreBytes : (ℕ → ℕ) → Type 0
AreBytes bits = (i : ℕ) → bits i < 256

pub set_bit-AreBytes : (bits : ℕ → ℕ) (k : ℕ) → AreBytes bits → AreBytes (set_bit bits k)
unfolding set_bit
set_bit-AreBytes bits k h i = elim (Bool-cases (i == k / 8)) [
  | inl e ↦ rw e ((byte_or (bits i) (k % 8) 0 (h i) (omega arith) (omega arith)).1)
  | inr e ↦ rw e (h i)
]

pub bit_at-set_bit :
    (bits : ℕ → ℕ) (k j : ℕ) → AreBytes bits → bit_at (set_bit bits k) j ≡ (k == j || bit_at bits j)
unfolding set_bit bit_at
bit_at-set_bit bits k j h = elim (Bool-cases (j / 8 == k / 8)) [
  | inl e ↦ rw e (
      (byte_or (bits (j / 8)) (k % 8) (j % 8) (h (j / 8)) (omega arith) (omega arith)).0
      ∙ ap (λ b. b || test_bit (bits (j / 8)) (7 - j % 8)) (in_byte (==→eq (j / 8) (k / 8) e)))
  | inr e ↦ rw e (
      ap (λ b. b || test_bit (bits (j / 8)) (7 - j % 8))
        (sym (ne→== k j (λ q. ==→ne (j / 8) (k / 8) e (ap (λ n. n / 8) (sym q))))))
]
  where
    in_byte : j / 8 ≡ k / 8 → (k % 8 == j % 8) ≡ (k == j)
    in_byte q = elim (Bool-cases (k % 8 == j % 8)) [
      | inl e ↦ e ∙ sym (eq→== k j (omega (arith, q, ==→eq (k % 8) (j % 8) e)))
      | inr e ↦ e ∙ sym (ne→== k j (λ p. ==→ne (k % 8) (j % 8) e (ap (λ n. n % 8) p)))
    ]

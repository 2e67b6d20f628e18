-- ===== src/Clock/Units.antt =====
-- wc3hook/clock_math.h: conversion between the units of a counter. `long long` products and sums are
-- checked: `none` is an overflow, which C leaves undefined.
use wc3env.Prelude.{
  ℕ, zero, suc, ◌+◌, ◌*◌, ◌/◌, ◌%◌, ◌^◌, ◌≤◌, ◌<◌, ◌≡◌, sym, ◌∙◌, ap, Option, none, some, arith,
  ltb, if◌then◌else◌,
}
use wc3env.Prelude.Int.{ℤ, pos, negsuc}
use native.Mathlib.Nat.{mul-add-div_right, div-add-mod', mod-lt, zero-mul, zero-div}
use mathlib.Core.Option

abbrev fit63 : ℕ → Option ℕ
fit63 n = if ltb n (2 ^ 63) then some n else none

-- `(ticks / frequency) * units + (ticks % frequency) * units / frequency` for `ticks` of one sign:
-- C divides towards zero, so both parts have that sign, and their magnitudes add.
magnitude : ℕ → ℕ → ℕ → Option ℕ
magnitude ticks frequency units = elim (fit63 (ticks / frequency * units)) [
  | none ↦ none
  | some whole ↦ elim (fit63 (ticks % frequency * units)) [
    | none ↦ none
    | some rest ↦ fit63 (whole + rest / frequency)
  ]
]

abbrev pub neg : ℕ → ℤ
neg zero = pos zero
neg (suc n) = negsuc n

pub clock_units : ℤ → ℕ → ℕ → Option ℤ
unfolding magnitude
clock_units (pos ticks) frequency units = Option.map pos (magnitude ticks frequency units)
clock_units (negsuc n) frequency units = Option.map neg (magnitude (suc n) frequency units)

split : (t f u : ℕ) → 0 < f → t / f * u + t % f * u / f ≡ t * u / f
split t f u h = sym (mul-add-div_right h (t / f * u) (t % f * u)) ∙ ap (λ n. n / f) whole
  where
    whole : t / f * u * f + t % f * u ≡ t * u
    whole = omega (arith, ap (λ (n : ℕ). n * u) (div-add-mod' t f))

-- Where `frequency * units` and the result itself fit in 63 bits, no product or sum overflows, and
-- the result is `ticks * units / frequency`.
magnitude_lem :
    (t f u : ℕ) → 0 < f → f * u < 2 ^ 63 → t * u / f < 2 ^ 63 → magnitude t f u ≡ some (t * u / f)
unfolding magnitude
magnitude_lem t f u h small fits = ground (arith, split t f u h, rest_fits, rest_fits')
  where
    rest_fits : t % f * u ≤ f * u
    rest_fits = grind (arith, mod-lt t h)

    rest_fits' : t % f * u / f + t / f * u ≡ t * u / f
    rest_fits' = omega (arith, split t f u h)

-- Where `frequency * units` and the result fit in 63 bits, a conversion overflows nowhere and is
-- exact: `ticks * units / frequency`, rounded towards zero on either side of it.
pub clock_units-exact :
    (t f u : ℕ)
    → 0 < f
    → f * u < 2 ^ 63
    → t * u / f < 2 ^ 63
    → (clock_units (pos t) f u ≡ some (pos (t * u / f)))
      × (clock_units (neg t) f u ≡ some (neg (t * u / f)))
unfolding clock_units
clock_units-exact t f u h small fits =
    (rw (magnitude_lem t f u h small fits), negative t (magnitude_lem t f u h small fits))
  where
    negative :
        (n : ℕ)
        → magnitude n f u ≡ some (n * u / f)
        → clock_units (neg n) f u ≡ some (neg (n * u / f))
    negative zero e = rw (e, zero-mul, zero-div)
    negative (suc n) e = rw e

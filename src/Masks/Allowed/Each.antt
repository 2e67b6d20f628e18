-- ===== src/Masks/Allowed/Each.antt =====
-- wc3hook/masks.c: the loops that allow at most one argument for each key of a set.
use mathlib.Core.List.{Memᴰ}
use mathlib.Core.List.Memᴰ
use wc3env.Prelude.{
  ℕ, ◌<◌, ◌≡◌, ◌⊎◌, ◌↔◌, inl, inr, refl, sym, ap, ◌∙◌, Bool, true, false, ◌||◌, Option, none, some,
  List, [], ◌∷◌, if◌then◌else◌, ltb, ltb→lt, ltb→ge, ◌==◌, ==→eq, eq→==, arith, Bool-cases,
}
use wc3env.Masks.{Reference}
use wc3env.Masks.Allowed.{Allowed, set_bit, bit_at, argument_of, allow, allow_one, allow_each}
use wc3env.Masks.Allowed.Bits.{AreBytes, set_bit-AreBytes, bit_at-set_bit}

-- The sets of the arguments that are allowed: every key of a list whose body gives one.
module _ (r : Reference) where
  -- The keys of the list allow the argument `j`.
  abbrev pub Gives : (ℕ → Option ℕ) → List ℕ → ℕ → Type 0
  Gives body ks j =
      (k : ℕ) × (raw : ℕ) × Memᴰ k ks × (body k ≡ some raw) × (0 < j) × (argument_of r raw ≡ j)

  abbrev pub GivesAny : (ℕ → Option ℕ) → List ℕ → Type 0
  GivesAny body ks = (k : ℕ) × (raw : ℕ) × Memᴰ k ks × (body k ≡ some raw)

  allow_one-AreBytes :
      (a : Allowed) (o : Option ℕ) → AreBytes a.bits → AreBytes (allow_one r o a).bits
  unfolding allow
  allow_one-AreBytes a none h = h
  allow_one-AreBytes a (some raw) h = by_argument (ltb 0 (argument_of r raw))
    where
      by_argument : (b : Bool) → AreBytes (if b then set_bit a.bits (argument_of r raw) else a.bits)
      by_argument true = set_bit-AreBytes a.bits (argument_of r raw) h
      by_argument false = h

  bit_at-allow :
      (a : Allowed) (raw j : ℕ)
      → AreBytes a.bits
      → (bit_at (allow r a raw).bits j ≡ true)
        ↔ ((bit_at a.bits j ≡ true) ⊎ ((0 < j) × (argument_of r raw ≡ j)))
  unfolding allow
  bit_at-allow a raw j h = elim (Bool-cases (ltb 0 (argument_of r raw))) [
    | inl e ↦ rw e (
      λ p. elim (Bool-cases (argument_of r raw == j)) [
        | inl q ↦ inr (omega (arith, ltb→lt 0 _ e, ==→eq _ j q), ==→eq _ j q)
        | inr q ↦ inl (rw q at (sym (bit_at-set_bit a.bits (argument_of r raw) j h) ∙ p))
      ],
      λ s. bit_at-set_bit a.bits (argument_of r raw) j h ∙ elim s [
        | inl p ↦ ap (λ b. argument_of r raw == j || b) p ∙ or_true (argument_of r raw == j)
        | inr (p, q) ↦ ap (λ b. b || bit_at a.bits j) (eq→== _ j q)
      ],
    )
    | inr e ↦
        rw e (
          λ p. inl p,
          λ s. elim s [ inl p ↦ p | inr (p, q) ↦ absurd (omega (arith, ltb→ge 0 _ e)) ],
        )
  ]
    where
      or_true : (b : Bool) → (b || true) ≡ true
      or_true true = refl
      or_true false = refl

  bit_at-allow_one :
      (a : Allowed) (o : Option ℕ) (j : ℕ)
      → AreBytes a.bits
      → (bit_at (allow_one r o a).bits j ≡ true) ↔ (
          (bit_at a.bits j ≡ true)
          ⊎ ((raw : ℕ) × (o ≡ some raw) × (0 < j) × (argument_of r raw ≡ j)))
  bit_at-allow_one a none j h =
      (λ p. inl p, λ s. elim s [ inl p ↦ p | inr (raw, e, p, q) ↦ absurd (ground arith) ])
  bit_at-allow_one a (some raw) j h = (
    λ p. elim ((bit_at-allow a raw j h).0 p) [ inl q ↦ inl q | inr (l, q) ↦ inr (raw, refl, l, q) ],
    λ s. (bit_at-allow a raw j h).1 (elim s [
      | inl p ↦ inl p
      | inr (raw', e, l, q) ↦ inr (l, ap (argument_of r) (same raw raw' e) ∙ q)
    ]),
  )
    where
      same : (x y : ℕ) → some x ≡ some y → x ≡ y
      same x y e = ground arith

  each_on :
      (body : ℕ → Option ℕ) (k : ℕ) (ks : List ℕ) (a : Allowed) (j : ℕ)
      → AreBytes a.bits
      → (bit_at (allow_each r body ks (allow_one r (body k) a)).bits j ≡ true)
        ↔ ((bit_at (allow_one r (body k) a).bits j ≡ true) ⊎ Gives body ks j)
      → (bit_at (allow_each r body ks (allow_one r (body k) a)).bits j ≡ true)
        ↔ ((bit_at a.bits j ≡ true) ⊎ Gives body (k ∷ ks) j)
  each_on body k ks a j h ih = (
    λ p. elim (ih.0 p) [
      | inl q ↦ elim ((bit_at-allow_one a (body k) j h).0 q) [
        | inl b ↦ inl b
        | inr (raw, e, l, g) ↦ inr (k, raw, Memᴰ.head refl, e, l, g)
      ]
      | inr (k', raw, m, e, l, g) ↦ inr (k', raw, Memᴰ.tail m, e, l, g)
    ],
    λ s. ih.1 (elim s [
      | inl b ↦ inl ((bit_at-allow_one a (body k) j h).1 (inl b))
      | inr (k', raw, m, e, l, g) ↦ elim (Memᴰ.cases_cons m) [
        | inl q ↦ inl ((bit_at-allow_one a (body k) j h).1 (inr (raw, ap body (sym q) ∙ e, l, g)))
        | inr t ↦ inr (k', raw, t, e, l, g)
      ]
    ]),
  )

  pub bit_at-allow_each :
      (body : ℕ → Option ℕ) (ks : List ℕ) (a : Allowed) (j : ℕ)
      → AreBytes a.bits
      → (bit_at (allow_each r body ks a).bits j ≡ true)
        ↔ ((bit_at a.bits j ≡ true) ⊎ Gives body ks j)
  unfolding allow_each
  bit_at-allow_each body [] a j h =
      (λ p. inl p, λ s. elim s [ inl p ↦ p | inr (k, raw, m, e, l, g) ↦ elim m [ ] ])
  bit_at-allow_each body (k ∷ ks) a j h =
      each_on body k ks a j h
        (bit_at-allow_each body ks (allow_one r (body k) a) j (allow_one-AreBytes a (body k) h))

  abbrev Anything : Option ℕ → Type 0
  Anything o = (raw : ℕ) × (o ≡ some raw)

  any-allow_one :
      (a : Allowed) (o : Option ℕ) → ((allow_one r o a).any ≡ true) ↔ ((a.any ≡ true) ⊎ Anything o)
  unfolding allow
  any-allow_one a none =
      (λ p. inl p, λ s. elim s [ inl p ↦ p | inr (raw, e) ↦ absurd (ground arith) ])
  any-allow_one a (some raw) = (λ p. inr (raw, refl), λ s. refl)

  any_on :
      (body : ℕ → Option ℕ) (k : ℕ) (ks : List ℕ) (a : Allowed) (out : Bool)
      → (out ≡ true) ↔ (((allow_one r (body k) a).any ≡ true) ⊎ GivesAny body ks)
      → (out ≡ true) ↔ ((a.any ≡ true) ⊎ GivesAny body (k ∷ ks))
  any_on body k ks a out ih = (
    λ p. elim (ih.0 p) [
      | inl q ↦ elim ((any-allow_one a (body k)).0 q) [
        | inl b ↦ inl b
        | inr (raw, e) ↦ inr (k, raw, Memᴰ.head refl, e)
      ]
      | inr (k', raw, m, e) ↦ inr (k', raw, Memᴰ.tail m, e)
    ],
    λ s. ih.1 (elim s [
      | inl b ↦ inl ((any-allow_one a (body k)).1 (inl b))
      | inr (k', raw, m, e) ↦ elim (Memᴰ.cases_cons m) [
        | inl q ↦ inl ((any-allow_one a (body k)).1 (inr (raw, ap body (sym q) ∙ e)))
        | inr t ↦ inr (k', raw, t, e)
      ]
    ]),
  )

  pub any-allow_each :
      (body : ℕ → Option ℕ) (ks : List ℕ) (a : Allowed)
      → ((allow_each r body ks a).any ≡ true) ↔ ((a.any ≡ true) ⊎ GivesAny body ks)
  unfolding allow_each
  any-allow_each body [] a =
      (λ p. inl p, λ s. elim s [ inl p ↦ p | inr (k, raw, m, e) ↦ elim m [ ] ])
  any-allow_each body (k ∷ ks) a =
      any_on body k ks a _ (any-allow_each body ks (allow_one r (body k) a))

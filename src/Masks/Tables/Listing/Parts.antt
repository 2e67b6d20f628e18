-- ===== src/Masks/Tables/Listing/Parts.antt =====
-- wc3hook/masks.c: what the tables are made of, independently of the loops that fill them.
use mathlib.Core.List.{Memᴰ}
use wc3env.Prelude.{
  ℕ, zero, suc, ◌%◌, ◌<◌, ◌≡◌, ◌≢◌, ◌⊎◌, ◌↔◌, inl, inr, refl, sym, ap, ◌∙◌, Bool, true, false, not,
  ◌&&◌, ◌||◌, Option, none, some, List, [], ◌∷◌, if◌then◌else◌, ltb, ◌==◌, ==→eq, ==→ne, ne→==,
  arith, Bool-cases, Option-cases, length,
}
use wc3env.Prelude.Int.{pos, ◌≤ℤ◌}
use wc3env.Masks.{Reference, leb_int}
use wc3env.Masks.Own.{Own, OwnUnit}
use wc3env.Masks.Allowed.{argument_of}
use wc3env.Masks.Allowed.Exact.{IsExact, CanTrain, CanResearch, CanBuild}
use wc3env.Masks.Decide.{
  Kind, noop, move, rally, cancel, buy, revive, train, research, build, learn, cast, item, Action,
  arg_bytes, Sets, type_mask, ArgRows, does, mark, mark_all, mark_units,
}
use wc3env.Masks.Tables.{any_byte, drop_zero, argument_bits}

-- Bits without that of argument 0, which is the highest of the first byte.
abbrev pub but_first : (ℕ → ℕ) → ℕ → ℕ
but_first bits i = if i == 0 then bits i % 128 else bits i

-- An argument other than 0 is allowed.
abbrev pub HasArgument : (ℕ → ℕ) → Type 0
HasArgument bits = (i : ℕ) × (i < arg_bytes) × (but_first bits i ≢ 0)

-- The argument mask of a type: it takes an argument and has one that is allowed, or there is none.
pub data IsMask (t : Action) (bits : ℕ → ℕ) : Option (ℕ → ℕ) → Type 0 where
  masked :
      (out : ℕ → ℕ)
      → t.takes_argument ≡ true
      → HasArgument bits
      → ((i : ℕ) → out i ≡ but_first bits i)
      → IsMask t bits (some out)
  unmasked : (t.takes_argument ≡ true → HasArgument bits → ⊥) → IsMask t bits none

any_byte-to : (n : ℕ) (bits : ℕ → ℕ) → any_byte n bits ≡ true → (i : ℕ) × (i < n) × (bits i ≢ 0)
unfolding any_byte
any_byte-to zero bits e = absurd (ground arith)
any_byte-to (suc n) bits e = elim (Bool-cases (any_byte n bits)) [
  | inl a ↦ let (i, l, p) = any_byte-to n bits a in (i, omega arith, p)
  | inr a ↦ (n, omega arith, ground arith)
]

any_byte-from : (n i : ℕ) (bits : ℕ → ℕ) → i < n → bits i ≢ 0 → any_byte n bits ≡ true
unfolding any_byte
any_byte-from zero i bits l p = absurd (omega arith)
any_byte-from (suc n) i bits l p = elim (Bool-cases (i == n)) [
  | inl e ↦
      or_right (any_byte n bits) _ (ap not (ne→== (bits n) 0 (λ q. p (ap bits (==→eq i n e) ∙ q))))
  | inr e ↦ ap (λ b. b || not (bits n == 0)) (any_byte-from n i bits (omega (arith, ==→ne i n e)) p)
]
  where
    or_right : (a b : Bool) → b ≡ true → (a || b) ≡ true
    or_right true b h = refl
    or_right false b h = h

pub argument_bits-IsMask : (t : Action) (bits : ℕ → ℕ) → IsMask t bits (argument_bits t bits)
unfolding argument_bits
argument_bits-IsMask t bits =
    by_tests t.takes_argument (any_byte arg_bytes (drop_zero bits)) refl refl
  where
    by_tests :
        (a b : Bool)
        → t.takes_argument ≡ a
        → any_byte arg_bytes (drop_zero bits) ≡ b
        → IsMask t bits (if a && b then some (drop_zero bits) else none)
    by_tests true true e f = masked _ e (any_byte-to arg_bytes (drop_zero bits) f) (λ i. refl)
    by_tests false b e f = unmasked (λ p q. cc)
    by_tests true false e f =
        unmasked
          (λ p (i, l, q). let h = any_byte-from arg_bytes i (drop_zero bits) l q in ground arith)

-- One of these keys gives the argument `j`.
abbrev pub Gives : Reference → List ℕ → ℕ → Type 0
Gives r raws j = (raw : ℕ) × Memᴰ raw raws × (argument_of r raw ≡ j) × (0 < j)

module _ (r : Reference) where
  touched-mark :
      (n : ℕ) (m : ArgRows) (raw j : ℕ)
      → ((mark r n m raw).touched j ≡ true)
        ↔ ((m.touched j ≡ true) ⊎ ((argument_of r raw ≡ j) × (0 < j)))
  unfolding mark
  touched-mark n m raw j = elim (Bool-cases (argument_of r raw == 0)) [
    | inl z ↦ rw z (
      λ p. inl p,
      λ s. elim s [
        | inl p ↦ p
        | inr q ↦ absurd (omega (arith, q.0, q.1, ==→eq (argument_of r raw) 0 z))
      ],
    )
    | inr z ↦ rw z (elim (Bool-cases (j == argument_of r raw)) [
      | inl e ↦ rw e (
        λ p. inr (sym (==→eq j _ e), omega (arith, ==→eq j _ e, ==→ne (argument_of r raw) 0 z)),
        λ s. refl,
      )
      | inr e ↦
          rw e (λ p. inl p, λ s. elim s [ inl p ↦ p | inr q ↦ absurd (==→ne j _ e (sym q.0)) ])
    ])
  ]

  touched-mark_all :
      (n : ℕ) (raws : List ℕ) (m : ArgRows) (j : ℕ)
      → ((mark_all r n raws m).touched j ≡ true) ↔ ((m.touched j ≡ true) ⊎ Gives r raws j)
  unfolding mark_all
  touched-mark_all n [] m j =
      (λ p. inl p, λ s. elim s [ inl p ↦ p | inr (raw, h, x, l) ↦ elim h [ ] ])
  touched-mark_all n (raw ∷ raws) m j =
      let later = touched-mark_all n raws (mark r n m raw) j in
      let now = touched-mark n m raw j in
      (
        λ p. elim (later.0 p) [
          | inl q ↦ elim (now.0 q) [ inl x ↦ inl x | inr x ↦ inr (raw, Memᴰ.head refl, x.0, x.1) ]
          | inr (raw', h, x, l) ↦ inr (raw', Memᴰ.tail h, x, l)
        ],
        λ s. later.1 (elim s [
          | inl p ↦ inl (now.1 (inl p))
          | inr (raw', h, x, l) ↦ of_place raw' x l h (now.1)
        ]),
      )
    where
      of_place :
          (raw' : ℕ)
          → argument_of r raw' ≡ j
          → 0 < j
          → Memᴰ raw' (raw ∷ raws)
          → ((m.touched j ≡ true) ⊎ ((argument_of r raw ≡ j) × (0 < j))
              → (mark r n m raw).touched j ≡ true)
          → ((mark r n m raw).touched j ≡ true) ⊎ Gives r raws j
      of_place raw' x l (Memᴰ.head e) k = inl (k (inr (ap (argument_of r) (sym e) ∙ x, l)))
      of_place raw' x l (Memᴰ.tail h) k = inr (raw', h, x, l)

module _ (r : Reference) {Real : Type 0} where
  -- A unit of the list, which row `n` shows, can do the argument `j`. `row` gives the rows of the places
  -- from `at` on.
  abbrev pub Does : Kind → (ℕ → Option ℕ) → ℕ → List (OwnUnit Real) → ℕ → Type 0
  Does kind row at [] j = ⊥
  Does kind row at (u ∷ us) j =
      ((n : ℕ) × (row at ≡ some n) × Gives r (does r kind u) j) ⊎ Does kind row (suc at) us j

  -- The arguments that have a row are those that some unit with a row can do.
  pub touched-mark_units :
      (kind : Kind) (row : ℕ → Option ℕ) (at : ℕ) (us : List (OwnUnit Real)) (m : ArgRows) (j : ℕ)
      → ((mark_units r kind row at us m).touched j ≡ true)
        ↔ ((m.touched j ≡ true) ⊎ Does kind row at us j)
  unfolding mark_units
  touched-mark_units kind row at [] m j = (λ p. inl p, λ s. elim s [ inl p ↦ p | inr q ↦ absurd q ])
  touched-mark_units kind row at (u ∷ us) m j = elim (Option-cases (row at)) [
    | inl e ↦
        let later = touched-mark_units kind row (suc at) us m j in
        rw (mark_units, e)
          (
            λ p. elim (later.0 p) [ inl q ↦ inl q | inr q ↦ inr (inr q) ],
            λ s. later.1 (elim s [
              | inl p ↦ inl p
              | inr (inl (n, q, x)) ↦ absurd (cc)
              | inr (inr q) ↦ inr q
            ]),
          )
    | inr (n, e) ↦
        let now = touched-mark_all r n (does r kind u) m j in
        let later = touched-mark_units kind row (suc at) us (mark_all r n (does r kind u) m) j in
        rw (mark_units, e)
          (
            λ p. elim (later.0 p) [
              | inl q ↦ elim (now.0 q) [ inl x ↦ inl x | inr x ↦ inr (inl (n, refl, x)) ]
              | inr q ↦ inr (inr q)
            ],
            λ s. later.1 (elim s [
              | inl p ↦ inl (now.1 (inl p))
              | inr (inl (n', q, x)) ↦ inl (now.1 (inr x))
              | inr (inr q) ↦ inr q
            ]),
          )
  ]

  -- When a kind of action is possible at all.
  abbrev pub IsPossible : Own Real → Sets Real → Kind → Type 0
  IsPossible w s noop = Unit
  IsPossible w s move = 0 < w.mobile
  IsPossible w s rally = 0 < w.structures
  IsPossible w s cancel = w.cancel ≡ true
  IsPossible w s buy = (w.h.gold ≤ℤ pos 0 → ⊥) × (0 < length w.units)
  IsPossible w s revive = 0 < length w.dead
  IsPossible w s train = (raw : ℕ) × CanTrain r w raw
  IsPossible w s research = (raw : ℕ) × CanResearch r w raw
  IsPossible w s build = (raw : ℕ) × CanBuild r w raw
  IsPossible w s learn = (s.allowed learn).any ≡ true
  IsPossible w s cast = (s.allowed cast).any ≡ true
  IsPossible w s item = (s.allowed item).any ≡ true

  pub type_mask-IsPossible :
      (w : Own Real) (s : Sets Real) (kind : Kind)
      → IsExact r w (CanTrain r w) (s.allowed train)
      → IsExact r w (CanResearch r w) (s.allowed research)
      → IsExact r w (CanBuild r w) (s.allowed build)
      → (type_mask r w s kind ≡ true) ↔ IsPossible w s kind
  unfolding type_mask
  type_mask-IsPossible w s noop t u v = (λ p. tt, λ q. refl)
  type_mask-IsPossible w s move t u v = (λ p. ground arith, λ q. ground arith)
  type_mask-IsPossible w s rally t u v = (λ p. ground arith, λ q. ground arith)
  type_mask-IsPossible w s cancel t u v = (λ p. p, λ q. q)
  type_mask-IsPossible w s buy t u v =
      (λ p. (λ h. ground arith, ground arith), λ q. can_buy (leb_int w.h.gold (pos 0)) refl q.0 q.1)
    where
      can_buy :
          (b : Bool)
          → leb_int w.h.gold (pos 0) ≡ b
          → (w.h.gold ≤ℤ pos 0 → ⊥)
          → 0 < length w.units
          → (not b && ltb 0 (length w.units)) ≡ true
      can_buy true e h l = absurd (h (ground arith))
      can_buy false e h l = ground arith
  type_mask-IsPossible w s revive t u v = (λ p. ground arith, λ q. ground arith)
  type_mask-IsPossible w s train t u v = t.any
  type_mask-IsPossible w s research t u v = u.any
  type_mask-IsPossible w s build t u v = v.any
  type_mask-IsPossible w s learn t u v = (λ p. p, λ q. q)
  type_mask-IsPossible w s cast t u v = (λ p. p, λ q. q)
  type_mask-IsPossible w s item t u v = (λ p. p, λ q. q)

-- ===== src/Masks/Own/Owned.antt =====
-- wc3hook/masks.c: what `own_init` gathers of the observer's units.
use mathlib.Core.List.{Memᴰ}
use mathlib.Core.List.Memᴰ
use wc3env.Prelude.{
  ℕ, zero, suc, ◌≤◌, ◌≡◌, ◌⊎◌, ◌↔◌, inl, inr, refl, ap, subst, true, Option, none, some, List, [],
  ◌∷◌, ◌++◌, length,
}
use wc3env.Prelude.Words.{test_bit}
use wc3env.Features.{Map, map_get}
use wc3env.Features.Growth.{IsTable}
use wc3env.Features.Sets.{has}
use wc3env.Masks.{Reference, FtUnit, items, Doubles, BinUnit, bu_structure}
use wc3env.Masks.Own.{OwnUnit, Own, max_own, is_built}

-- A unit with the reference data of its type.
abbrev pub Role : Type 0 → Type 0
Role Real = BinUnit Real × Option FtUnit

module _ {Real : Type 0} where
  abbrev pub roles : List (OwnUnit Real) → List (Role Real)
  roles [] = []
  roles (u ∷ us) = (u.u, u.info) ∷ roles us

  pub roles-append :
      (us : List (OwnUnit Real)) (u : OwnUnit Real)
      → roles (us ++ u ∷ []) ≡ roles us ++ (u.u, u.info) ∷ []
  roles-append [] u = refl
  roles-append (v ∷ us) u = ap (λ rs. (v.u, v.info) ∷ rs) (roles-append us u)

  pub length-roles : (us : List (OwnUnit Real)) → length (roles us) ≡ length us
  length-roles [] = refl
  length-roles (u ∷ us) = ap suc (length-roles us)

  -- The unit at a place has this id.
  abbrev pub Named : List (Role Real) → ℕ → ℕ → Type 0
  Named [] at id = ⊥
  Named (x ∷ xs) zero id = x.0.unit_id ≡ id
  Named (x ∷ xs) (suc at) id = Named xs at id

  pub Named-append :
      (xs ys : List (Role Real)) (at id : ℕ) → Named xs at id → Named (xs ++ ys) at id
  Named-append [] ys at id h = absurd h
  Named-append (x ∷ xs) ys zero id h = h
  Named-append (x ∷ xs) ys (suc at) id h = Named-append xs ys at id h

  pub Named-last :
      (xs : List (Role Real)) (x : Role Real) → Named (xs ++ x ∷ []) (length xs) x.0.unit_id
  Named-last [] x = refl
  Named-last (y ∷ xs) x = Named-last xs x

  -- A set is what the units of the list bring to it.
  abbrev pub Sums : (Role Real → ℕ → Type 0) → List (Role Real) → Map ℕ → Type 0
  Sums P us m = (c : ℕ) → (has m c ≡ true) ↔ ((x : Role Real) × Memᴰ x us × P x c)

  pub Sums-append :
      (P : Role Real → ℕ → Type 0) (us : List (Role Real)) (x : Role Real) (m m' : Map ℕ)
      → Sums P us m
      → ((c : ℕ) → (has m' c ≡ true) ↔ ((has m c ≡ true) ⊎ P x c))
      → Sums P (us ++ x ∷ []) m'
  Sums-append P us x m m' s h c = (
    λ p. elim ((h c).0 p) [
      | inl q ↦ let (y, e, b) = (s c).0 q in (y, Memᴰ.append_left (x ∷ []) e, b)
      | inr b ↦ (x, Memᴰ.append_right us (Memᴰ.head refl), b)
    ],
    λ q.
        let (y, e, b) = q in
        (h c).1 (elim (Memᴰ.append_cases us e) [
          | inl l ↦ inl ((s c).1 (y, l, b))
          | inr l ↦ inr (subst (λ y. P y c) (Memᴰ.eq_of_singleton l) b)
        ]),
  )

module _ (r : Reference) {Real : Type 0} (d : Doubles Real) where
  -- What the reference data says that a type makes, builds and upgrades into.
  abbrev pub Offers : Option FtUnit → ℕ → Type 0
  Offers none c = ⊥
  Offers (some i) c =
      (Memᴰ c (items r i.trains) ⊎ Memᴰ c (items r i.researches)) ⊎ Memᴰ c (items r i.upgrades_to)

  abbrev pub Upgrades : Option FtUnit → ℕ → Type 0
  Upgrades none c = ⊥
  Upgrades (some i) c = Memᴰ c (items r i.upgrades_to)

  abbrev pub Builds : Role Real → ℕ → Type 0
  Builds x c = elim x.1 [ none ↦ ⊥ | some i ↦ Memᴰ c (items r i.builds) ]

  -- A finished structure makes what it trains, researches and upgrades into.
  abbrev pub Makes : Role Real → ℕ → Type 0
  Makes x c = (test_bit x.0.flags bu_structure ≡ true) × (is_built r d x.0 ≡ true) × Offers x.1 c

  abbrev pub IsDone : Role Real → ℕ → Type 0
  IsDone x c =
      (test_bit x.0.flags bu_structure ≡ true) × (is_built r d x.0 ≡ true) × (x.0.type_id ≡ c)

  -- An upgrading structure counts as what it becomes.
  abbrev pub Becomes : Role Real → ℕ → Type 0
  Becomes x c = (test_bit x.0.flags bu_structure ≡ true) × (x.0.state ≡ 2) × Upgrades x.1 c

  -- What the sets hold of the units gathered so far.
  pub record IsOwned (w : Own Real) : Type 0 where
    pub few : length (roles w.units) ≤ max_own
    pub few_dead : length w.dead ≤ 64
    pub makes_table : IsTable w.makes
    pub builds_table : IsTable w.builds
    pub done_table : IsTable w.done
    pub soon_table : IsTable w.have_soon
    pub index_table : IsTable w.index
    pub research_table : IsTable w.research
    pub makes : Sums Makes (roles w.units) w.makes
    pub builds : Sums Builds (roles w.units) w.builds
    pub done : Sums IsDone (roles w.units) w.done
    pub soon : Sums Becomes (roles w.units) w.have_soon
    pub index : (id at : ℕ) → map_get w.index id ≡ some at → Named (roles w.units) at id

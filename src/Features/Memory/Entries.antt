-- ===== src/Features/Memory/Entries.antt =====
-- wc3hook/features.c: the entries of what is remembered, as a finite map from their ids.
use wc3env.Prelude.{
  ℕ, ◌≡◌, refl, sym, ap, ◌∙◌, inl, inr, Bool, Option, none, some, List, [], ◌∷◌, if◌then◌else◌,
  ◌==◌, ==→eq, ==→ne, ne→==, arith, Bool-cases,
}
use wc3env.Features.{Remembered, remember, forget}
use wc3env.Features.Memory.{Floats, BinUnit, sweep}

module _ {Row : Type 0} where
  -- The entry of an id.
  unfoldable pub find : ℕ → List (Remembered Row) → Option (Remembered Row)
  find id [] = none
  find id (r ∷ rs) = let rest = find id rs in if r.unit_id == id then some r else rest

  -- No id has two entries.
  abbrev pub IsUnique : List (Remembered Row) → Type 0
  IsUnique [] = Unit
  IsUnique (r ∷ rs) = (find r.unit_id rs ≡ none) × IsUnique rs

  pub find-remember :
      (r : Remembered Row) (id : ℕ) (rs : List (Remembered Row))
      → find id (remember r rs) ≡ (if r.unit_id == id then some r else find id rs)
  unfolding find remember
  find-remember r id [] = refl
  find-remember r id (q ∷ rs) = ground (arith, find-remember r id rs)

  pub remember-IsUnique :
      (r : Remembered Row) (rs : List (Remembered Row)) → IsUnique rs → IsUnique (remember r rs)
  unfolding remember find
  remember-IsUnique r [] u = (refl, tt)
  remember-IsUnique r (q ∷ rs) u = elim (Bool-cases (q.unit_id == r.unit_id)) [
    | inl e ↦ rw e (ap (λ id. find id rs) (sym (==→eq q.unit_id r.unit_id e)) ∙ u.0, u.1)
    | inr e ↦ rw e (
      find-remember r q.unit_id rs
          ∙ ap (λ b. if b then some r else find q.unit_id rs)
              (ne→== r.unit_id q.unit_id (λ p. ==→ne q.unit_id r.unit_id e (sym p)))
          ∙ u.0,
      remember-IsUnique r rs u.1,
    )
  ]

  pub find-forget :
      (k id : ℕ) (rs : List (Remembered Row))
      → IsUnique rs
      → find id (forget k rs) ≡ (if k == id then none else find id rs)
  unfolding find forget
  find-forget k id [] u = ground arith
  find-forget k id (q ∷ rs) u = elim (Bool-cases (q.unit_id == k)) [
    | inl e ↦ elim (Bool-cases (k == id)) [
      | inl g ↦ rw e (rw g (ap (λ id. find id rs) (sym (==→eq q.unit_id k e ∙ ==→eq k id g)) ∙ u.0))
      | inr g ↦ ground (arith, ==→eq q.unit_id k e)
    ]
    | inr e ↦ ground (arith, find-forget k id rs u.1)
  ]

  pub forget-IsUnique : (k : ℕ) (rs : List (Remembered Row)) → IsUnique rs → IsUnique (forget k rs)
  unfolding forget
  forget-IsUnique k [] u = tt
  forget-IsUnique k (q ∷ rs) u = elim (Bool-cases (q.unit_id == k)) [
    | inl e ↦ rw e u.1
    | inr e ↦ rw e (
      find-forget k q.unit_id rs u.1
          ∙ ap (λ b. if b then none else find q.unit_id rs)
              (ne→== k q.unit_id (λ p. ==→ne q.unit_id k e (sym p)))
          ∙ u.0,
      forget-IsUnique k rs u.1,
    )
  ]

  -- An entry stays unless the test holds of its row.
  abbrev pub keep : (Row → Bool) → Option (Remembered Row) → Option (Remembered Row)
  keep test none = none
  keep test (some r) = if test r.row then none else some r

  abbrev pub or_else : Option (Remembered Row) → Option (Remembered Row) → Option (Remembered Row)
  or_else none o = o
  or_else (some r) o = some r

  pub or_else_assoc :
      (a b c : Option (Remembered Row)) → or_else a (or_else b c) ≡ or_else (or_else a b) c
  or_else_assoc none b c = refl
  or_else_assoc (some r) b c = refl

module _ {Real : Type 0} where
  pub find-sweep :
      (single d : Floats Real) (test : BinUnit Real → Bool) (id : ℕ)
      (rs : List (Remembered (BinUnit Real)))
      → IsUnique rs
      → find id (sweep single d test rs) ≡ keep test (find id rs)
  unfolding find sweep
  find-sweep single d test id [] u = refl
  find-sweep single d test id (q ∷ rs) u = elim (Bool-cases (test q.row)) [
    | inr t ↦ elim (Bool-cases (q.unit_id == id)) [
      | inl e ↦ rw t (rw e (rw t refl))
      | inr e ↦ rw t (rw e (find-sweep single d test id rs u.1))
    ]
    | inl t ↦ elim (Bool-cases (q.unit_id == id)) [
      | inl e ↦ rw t (
          rw e (
            rw t (
              find-sweep single d test id rs u.1
              ∙ ap (keep test) (ap (λ id. find id rs) (sym (==→eq q.unit_id id e)) ∙ u.0))))
      | inr e ↦ rw t (rw e (find-sweep single d test id rs u.1))
    ]
  ]

  pub sweep-IsUnique :
      (single d : Floats Real) (test : BinUnit Real → Bool) (rs : List (Remembered (BinUnit Real)))
      → IsUnique rs
      → IsUnique (sweep single d test rs)
  unfolding sweep
  sweep-IsUnique single d test [] u = tt
  sweep-IsUnique single d test (q ∷ rs) u = elim (Bool-cases (test q.row)) [
    | inl t ↦ rw t (sweep-IsUnique single d test rs u.1)
    | inr t ↦ rw t (
      find-sweep single d test q.unit_id rs u.1 ∙ ap (keep test) u.0,
      sweep-IsUnique single d test rs u.1,
    )
  ]

-- ===== src/Masks/Own/Offered.antt =====
-- wc3hook/masks.c: what a type of unit puts into the sets of `own_init`.
use mathlib.Core.List.{Memᴰ}
use wc3env.Prelude.{ℕ, ◌≡◌, ◌⊎◌, ◌↔◌, inl, inr, true, Option, none, some, List}
use wc3env.Features.{Map}
use wc3env.Features.Growth.{IsTable}
use wc3env.Features.Sets.{has, puts, puts-IsTable, has-puts}
use wc3env.Masks.{Reference, FtUnit, items, Doubles, BinUnit}
use wc3env.Masks.Own.{made, becomes, built_by}
use wc3env.Masks.Own.Owned.{Offers, Upgrades, Builds}

module _ (r : Reference) {Real : Type 0} (d : Doubles Real) where
  has-puts_three :
      (as' bs cs : List ℕ) (m : Map ℕ) (x : ℕ)
      → IsTable m
      → (has (puts cs (puts bs (puts as' m))) x ≡ true)
        ↔ ((has m x ≡ true) ⊎ ((Memᴰ x as' ⊎ Memᴰ x bs) ⊎ Memᴰ x cs))
  has-puts_three as' bs cs m x t = (
    λ h. elim (third.0 h) [
      | inr e ↦ inr (inr e)
      | inl h ↦ elim (second.0 h) [
        | inr e ↦ inr (inl (inr e))
        | inl h ↦ elim (first.0 h) [ inr e ↦ inr (inl (inl e)) | inl h ↦ inl h ]
      ]
    ],
    λ s. elim s [
      | inl h ↦ third.1 (inl (second.1 (inl (first.1 (inl h)))))
      | inr q ↦ elim q [
        | inr e ↦ third.1 (inr e)
        | inl q ↦ elim q [
          | inr e ↦ third.1 (inl (second.1 (inr e)))
          | inl e ↦ third.1 (inl (second.1 (inl (first.1 (inr e)))))
        ]
      ]
    ],
  )
    where
      first : (has (puts as' m) x ≡ true) ↔ ((has m x ≡ true) ⊎ Memᴰ x as')
      first = has-puts as' m x t

      second : (has (puts bs (puts as' m)) x ≡ true) ↔ ((has (puts as' m) x ≡ true) ⊎ Memᴰ x bs)
      second = has-puts bs (puts as' m) x (puts-IsTable as' m t)

      third :
          (has (puts cs (puts bs (puts as' m))) x ≡ true)
          ↔ ((has (puts bs (puts as' m)) x ≡ true) ⊎ Memᴰ x cs)
      third = has-puts cs (puts bs (puts as' m)) x (puts-IsTable bs _ (puts-IsTable as' m t))

  pub none_more : {P : Type 0} (Q : Type 0) → (Q → ⊥) → P ↔ (P ⊎ Q)
  none_more Q h = (λ p. inl p, λ s. elim s [ inl p ↦ p | inr q ↦ absurd (h q) ])

  pub has-made :
      (o : Option FtUnit) (m : Map ℕ) (c : ℕ)
      → IsTable m
      → (has (made r o m) c ≡ true) ↔ ((has m c ≡ true) ⊎ Offers r d o c)
  unfolding made
  has-made none m c t = none_more ⊥ (λ h. h)
  has-made (some i) m c t =
      has-puts_three (items r i.trains) (items r i.researches) (items r i.upgrades_to) m c t

  pub has-becomes :
      (o : Option FtUnit) (m : Map ℕ) (c : ℕ)
      → IsTable m
      → (has (becomes r o m) c ≡ true) ↔ ((has m c ≡ true) ⊎ Upgrades r d o c)
  unfolding becomes
  has-becomes none m c t = none_more ⊥ (λ h. h)
  has-becomes (some i) m c t = has-puts (items r i.upgrades_to) m c t

  pub has-built_by :
      (u : BinUnit Real) (o : Option FtUnit) (m : Map ℕ) (c : ℕ)
      → IsTable m
      → (has (built_by r o m) c ≡ true) ↔ ((has m c ≡ true) ⊎ Builds r d (u, o) c)
  unfolding built_by
  has-built_by u none m c t = none_more ⊥ (λ h. h)
  has-built_by u (some i) m c t = has-puts (items r i.builds) m c t

  pub made-IsTable : (o : Option FtUnit) (m : Map ℕ) → IsTable m → IsTable (made r o m)
  unfolding made
  made-IsTable none m t = t
  made-IsTable (some i) m t = puts-IsTable _ _ (puts-IsTable _ _ (puts-IsTable _ m t))

  pub becomes-IsTable : (o : Option FtUnit) (m : Map ℕ) → IsTable m → IsTable (becomes r o m)
  unfolding becomes
  becomes-IsTable none m t = t
  becomes-IsTable (some i) m t = puts-IsTable _ m t

  pub built_by-IsTable : (o : Option FtUnit) (m : Map ℕ) → IsTable m → IsTable (built_by r o m)
  unfolding built_by
  built_by-IsTable none m t = t
  built_by-IsTable (some i) m t = puts-IsTable _ m t

-- ===== src/Masks/Own/Added/Carried.antt =====
-- wc3hook/masks.c: the items that the units carry leave the list of the units as it is.
use wc3env.Prelude.{ℕ, zero, suc, ◌≡◌, refl, ap, ◌∙◌, Option, none, some, List, [], ◌∷◌}
use wc3env.Features.{Map, map_get}
use wc3env.Masks.{Reference, Doubles}
use wc3env.Masks.Own.{OwnUnit, carry_at, carry}
use wc3env.Masks.Own.Owned.{roles}

module _ (r : Reference) {Real : Type 0} (d : Doubles Real) where
  roles-carry_at :
      (at item : ℕ) (us : List (OwnUnit Real)) → roles (carry_at r d at item us) ≡ roles us
  unfolding carry_at
  roles-carry_at at item [] = refl
  roles-carry_at zero item (u ∷ us) = refl
  roles-carry_at (suc at) item (u ∷ us) = ap (λ l. (u.u, u.info) ∷ l) (roles-carry_at at item us)

  pub roles-carry :
      (index : Map ℕ) (items : List (ℕ × ℕ)) (us : List (OwnUnit Real))
      → roles (carry r d index items us) ≡ roles us
  unfolding carry
  roles-carry index [] us = refl
  roles-carry index ((unit, item) ∷ rest) us =
      roles-carry index rest _ ∙ of_found (map_get index unit)
    where
      of_found :
          (o : Option ℕ)
          → roles (elim o as (λ o. List (OwnUnit Real)) [
            | none ↦ us
            | some at ↦ carry_at r d at item us
          ])
            ≡ roles us
      of_found none = refl
      of_found (some at) = roles-carry_at at item us

-- ===== src/Masks/Own/Added.antt =====
-- wc3hook/masks.c: one unit of an observation.
pub mod Carried
use wc3env.Prelude.{
  ◌<◌, ◌≡◌, ◌⊎◌, inl, inr, refl, not, ◌&&◌, List, [], ◌∷◌, ◌++◌, if◌then◌else◌, ltb, ltb→lt, ltb→ge,
  ◌==◌, ==→eq, ==→ne, arith, Bool-cases, length,
}
use wc3env.Prelude.Words.{test_bit}
use wc3env.Masks.{Reference, unit_info, Doubles, BinUnit, bu_own, bu_hero, bu_dead}
use wc3env.Masks.Own.{Own, max_own, new_own, add_structure, add_living, add_unit}
use wc3env.Masks.Own.Owned.{Role, roles, roles-append, length-roles, IsOwned}

module _ (r : Reference) {Real : Type 0} (d : Doubles Real) where
  -- The observer's living units of an observation, with the data of their types.
  unfoldable pub living : List (BinUnit Real) → List (Role Real)
  living [] = []
  living (u ∷ us) =
      let rest = living us in
      if test_bit u.flags bu_own && not (test_bit u.flags bu_dead)
      then (u, unit_info r u.type_id) ∷ rest
      else rest

  -- Its dead heroes.
  unfoldable pub fallen : List (BinUnit Real) → List (BinUnit Real)
  fallen [] = []
  fallen (u ∷ us) =
      let rest = fallen us in
      if test_bit u.flags bu_own && test_bit u.flags bu_dead && test_bit u.flags bu_hero
      then u ∷ rest
      else rest

  pub roles-add_living :
      (u : BinUnit Real) (w : Own Real)
      → roles (add_living r d u w).units ≡ roles w.units ++ (u, unit_info r u.type_id) ∷ []
  unfolding add_living add_structure new_own
  roles-add_living u w = elim (Bool-cases (test_bit u.flags 1)) [
    | inl s ↦ rw s (roles-append w.units (new_own u (unit_info r u.type_id)))
    | inr s ↦ rw s (roles-append w.units (new_own u (unit_info r u.type_id)))
  ]

  pub dead-add_living : (u : BinUnit Real) (w : Own Real) → (add_living r d u w).dead ≡ w.dead
  unfolding add_living add_structure
  dead-add_living u w = elim (Bool-cases (test_bit u.flags 1)) [
    | inl s ↦ rw s refl
    | inr s ↦ rw s refl
  ]

  -- What one unit does: nothing, a dead hero more, or a living unit more.
  pub data IsAdded (u : BinUnit Real) (w : Own Real) : Own Real → Type 0 where
    passed :
        ((us : List (BinUnit Real)) → living (u ∷ us) ≡ living us)
        → ((us : List (BinUnit Real)) → (fallen (u ∷ us) ≡ fallen us) ⊎ (length w.dead ≡ 64))
        → IsAdded u w w
    overfull :
        length w.units ≡ max_own
        → ((us : List (BinUnit Real)) → fallen (u ∷ us) ≡ fallen us)
        → IsAdded u w w
    died :
        length w.dead < 64
        → ((us : List (BinUnit Real)) → living (u ∷ us) ≡ living us)
        → ((us : List (BinUnit Real)) → fallen (u ∷ us) ≡ u ∷ fallen us)
        → IsAdded u w (record w { dead = w.dead ++ u ∷ [] })
    lives :
        length w.units < max_own
        → ((us : List (BinUnit Real)) → living (u ∷ us) ≡ (u, unit_info r u.type_id) ∷ living us)
        → ((us : List (BinUnit Real)) → fallen (u ∷ us) ≡ fallen us)
        → IsAdded u w (add_living r d u w)

  pub add_unit-IsAdded :
      (u : BinUnit Real) (w : Own Real) → IsOwned r d w → IsAdded u w (add_unit r d u w)
  unfolding add_unit living fallen
  add_unit-IsAdded u w v = elim (Bool-cases (test_bit u.flags bu_own)) [
    | inr o ↦ rw o (passed (λ us. rw o refl) (λ us. inl (rw o refl)))
    | inl o ↦ elim (Bool-cases (test_bit u.flags bu_dead)) [
      | inl e ↦ elim (Bool-cases (test_bit u.flags bu_hero)) [
        | inr h ↦
            rw o
              (rw e (rw h (passed (λ us. rw o (rw e refl)) (λ us. inl (rw o (rw e (rw h refl)))))))
        | inl h ↦ elim (Bool-cases (ltb (length w.dead) 64)) [
          | inl l ↦ rw o (
              rw e (
                rw h (
                  rw l (
                    died (ltb→lt _ 64 l) (λ us. rw o (rw e refl))
                      (λ us. rw o (rw e (rw h refl)))))))
          | inr l ↦ rw o (
              rw e (
                rw h (
                  rw l (
                    passed (λ us. rw o (rw e refl))
                      (λ us. inr (omega (arith, v.few_dead, ltb→ge (length w.dead) 64 l)))))))
        ]
      ]
      | inr e ↦ elim (Bool-cases (length w.units == max_own)) [
        | inl l ↦ rw o (rw e (rw l (overfull (==→eq _ max_own l) (λ us. rw o (rw e refl)))))
        | inr l ↦ rw o (
            rw e (
              rw l (
                lives (omega (arith, ==→ne (length w.units) max_own l, v.few, length-roles w.units))
                  (λ us. rw o (rw e refl)) (λ us. rw o (rw e refl)))))
      ]
    ]
  ]

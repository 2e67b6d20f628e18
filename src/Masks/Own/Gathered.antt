-- ===== src/Masks/Own/Gathered.antt =====
-- wc3hook/masks.c: the sets of `own_init` as each unit is gathered.

use wc3env.Prelude.{
  ℕ, ◌≤◌, ◌<◌, ◌≡◌, ◌⊎◌, ◌↔◌, inl, inr, refl, sym, ap, subst, ◌∙◌, Bool, true, false, Option, some,
  List, [], ◌∷◌, ◌++◌, if◌then◌else◌, ◌==◌, ==→eq, ==→ne, arith, Bool-cases, length, length-append,
}
use wc3env.Prelude.Words.{test_bit}
use wc3env.Features.{Map, map_put, map_get}
use wc3env.Features.Growth.{IsTable}
use wc3env.Features.Sets.{has, has-put, put-IsTable, get-put_self, get-put_ne}
use wc3env.Masks.{Reference, FtUnit, unit_info, Doubles, BinUnit, bu_structure}
use wc3env.Masks.Own.{Own, max_own, new_own, made, becomes, is_built, add_structure, add_living}
use wc3env.Masks.Own.Owned.{
  Role, roles, roles-append, length-roles, Named, Named-append, Named-last, Sums, Sums-append,
  Builds, Makes, IsDone, Becomes, IsOwned,
}
use wc3env.Masks.Own.Offered.{
  none_more, has-made, has-becomes, has-built_by, made-IsTable, becomes-IsTable, built_by-IsTable,
}

module _ (r : Reference) {Real : Type 0} (d : Doubles Real) (u : BinUnit Real) (w : Own Real)
    (v : IsOwned r d w) (room : length w.units < max_own) where
  abbrev info : Option FtUnit
  info = unit_info r u.type_id

  abbrev role : Role Real
  role = (u, info)

  abbrev after : List (Role Real)
  after = roles (w.units ++ new_own u info ∷ [])

  after-append : after ≡ roles w.units ++ role ∷ []
  unfolding new_own
  after-append = roles-append w.units (new_own u info)

  summed :
      (P : Role Real → ℕ → Type 0) (m m' : Map ℕ)
      → Sums P (roles w.units) m
      → ((c : ℕ) → (has m' c ≡ true) ↔ ((has m c ≡ true) ⊎ P role c))
      → Sums P after m'
  summed P m m' s h =
      subst (λ us. Sums P us m') (sym after-append) (Sums-append P (roles w.units) role m m' s h)

  index_after :
      (id at : ℕ)
      → map_get (map_put u.unit_id (length w.units) w.index) id ≡ some at
      → Named after at id
  index_after id at e =
      subst (λ us. Named us at id) (sym after-append)
        (elim (Bool-cases (u.unit_id == id)) [
          | inl q ↦
              subst (λ id. Named (roles w.units ++ role ∷ []) at id) (==→eq _ id q)
                (subst (λ at. Named (roles w.units ++ role ∷ []) at u.unit_id)
                  (length-roles w.units
                    ∙ same (
                        sym (get-put_self w.index u.unit_id (length w.units) v.index_table)
                        ∙ ap (map_get (map_put u.unit_id (length w.units) w.index)) (==→eq _ id q)
                        ∙ e))
                  (Named-last (roles w.units) role))
          | inr q ↦ Named-append (roles w.units) (role ∷ []) at id (
              v.index id at (
                sym (get-put_ne w.index u.unit_id id (length w.units) v.index_table (==→ne _ id q))
                ∙ e))
        ])
    where
      same : {x y : ℕ} → some x ≡ some y → x ≡ y
      same e = ground arith

  few_after : length after ≤ max_own
  few_after =
      rw after-append
        (omega (arith, length-append {0} (roles w.units) (role ∷ []), length-roles w.units, room))

  makes_after :
      (b : Bool)
      → is_built r d u ≡ b
      → test_bit u.flags bu_structure ≡ true
      → (c : ℕ)
      → (has (if b then made r info w.makes else w.makes) c ≡ true)
        ↔ ((has w.makes c ≡ true) ⊎ Makes r d role c)
  makes_after true e s c = (
    λ h. elim ((has-made r d info w.makes c v.makes_table).0 h) [
      | inl p ↦ inl p
      | inr o ↦ inr (s, e, o)
    ],
    λ q.
        (has-made r d info w.makes c v.makes_table).1
          (elim q [ inl p ↦ inl p | inr (s, e, o) ↦ inr o ]),
  )
  makes_after false e s c = none_more r d (Makes r d role c) (λ q. ground (arith, e, q.1))

  done_after :
      (b : Bool)
      → is_built r d u ≡ b
      → test_bit u.flags bu_structure ≡ true
      → (c : ℕ)
      → (has (if b then map_put u.type_id 0 w.done else w.done) c ≡ true)
        ↔ ((has w.done c ≡ true) ⊎ IsDone r d role c)
  done_after true e s c = (
    λ h. elim (Bool-cases (u.type_id == c)) [
      | inl q ↦ inr (s, e, ==→eq _ c q)
      | inr q ↦ inl (rw q at (sym (has-put w.done u.type_id c 0 v.done_table) ∙ h))
    ],
    λ q.
        has-put w.done u.type_id c 0 v.done_table
        ∙ elim q [ inl p ↦ ground (arith, p) | inr (s, e, o) ↦ ground (arith, o) ],
  )
  done_after false e s c = none_more r d (IsDone r d role c) (λ q. ground (arith, e, q.1))

  soon_after :
      (b : Bool)
      → (u.state == 2) ≡ b
      → test_bit u.flags bu_structure ≡ true
      → (c : ℕ)
      → (has (if b then becomes r info w.have_soon else w.have_soon) c ≡ true)
        ↔ ((has w.have_soon c ≡ true) ⊎ Becomes r d role c)
  soon_after true e s c = (
    λ h. elim ((has-becomes r d info w.have_soon c v.soon_table).0 h) [
      | inl p ↦ inl p
      | inr o ↦ inr (s, ==→eq u.state 2 e, o)
    ],
    λ q.
        (has-becomes r d info w.have_soon c v.soon_table).1
          (elim q [ inl p ↦ inl p | inr (s, e, o) ↦ inr o ]),
  )
  soon_after false e s c = none_more r d (Becomes r d role c) (λ q. ground (arith, e, q.1))

  IsTable-if : (b : Bool) (m m' : Map ℕ) → IsTable m → IsTable m' → IsTable (if b then m' else m)
  IsTable-if true m m' t t' = t'
  IsTable-if false m m' t t' = t

  pub living-IsOwned : IsOwned r d (add_living r d u w)
  unfolding add_living add_structure
  living-IsOwned = elim (Bool-cases (test_bit u.flags bu_structure)) [
    | inl s ↦ rw s (record {
      few = few_after;
      few_dead = v.few_dead;
      makes_table =
          IsTable-if (is_built r d u) w.makes _ v.makes_table
            (made-IsTable r d info w.makes v.makes_table);
      builds_table = built_by-IsTable r d info w.builds v.builds_table;
      done_table =
          IsTable-if (is_built r d u) w.done _ v.done_table
            (put-IsTable w.done u.type_id 0 v.done_table);
      soon_table =
          IsTable-if (u.state == 2) w.have_soon _ v.soon_table
            (becomes-IsTable r d info w.have_soon v.soon_table);
      index_table = put-IsTable w.index u.unit_id (length w.units) v.index_table;
      research_table = v.research_table;
      makes = summed (Makes r d) w.makes _ v.makes (makes_after (is_built r d u) refl s);
      builds =
          summed (Builds r d) w.builds _ v.builds
            (λ c. has-built_by r d u info w.builds c v.builds_table);
      done = summed (IsDone r d) w.done _ v.done (done_after (is_built r d u) refl s);
      soon = summed (Becomes r d) w.have_soon _ v.soon (soon_after (u.state == 2) refl s);
      index = index_after;
    })
    | inr s ↦ rw s (record {
      few = few_after;
      few_dead = v.few_dead;
      makes_table = v.makes_table;
      builds_table = built_by-IsTable r d info w.builds v.builds_table;
      done_table = v.done_table;
      soon_table = v.soon_table;
      index_table = put-IsTable w.index u.unit_id (length w.units) v.index_table;
      research_table = v.research_table;
      makes =
          summed (Makes r d) w.makes w.makes v.makes
            (λ c. none_more r d (Makes r d role c) (λ q. ground (arith, s, q.0)));
      builds =
          summed (Builds r d) w.builds _ v.builds
            (λ c. has-built_by r d u info w.builds c v.builds_table);
      done =
          summed (IsDone r d) w.done w.done v.done
            (λ c. none_more r d (IsDone r d role c) (λ q. ground (arith, s, q.0)));
      soon =
          summed (Becomes r d) w.have_soon w.have_soon v.soon
            (λ c. none_more r d (Becomes r d role c) (λ q. ground (arith, s, q.0)));
      index = index_after;
    })
  ]

-- ===== src/Masks/Own/Init.antt =====
-- wc3hook/masks.c: `own_init` as a whole.
pub mod Counts
use mathlib.Core.List.{Memᴰ, append_assoc, append-nil}
use wc3env.Prelude.{
  ℕ, zero, suc, ◌≤◌, ◌≡◌, ◌⊎◌, ◌↔◌, inl, inr, refl, sym, ap, subst, ◌∙◌, true, Option, none, some,
  List, [], ◌∷◌, ◌++◌, arith, length, length-append, take, take_all, take-append_full,
}
use wc3env.Features.{Map, map_init, map_get}
use wc3env.Features.Growth.{IsTable, init-IsTable}
use wc3env.Features.Sets.{has, get-init, has-init}
use wc3env.Masks.{Reference, unit_info, Doubles, BinUnit, Stock, Obs}
use wc3env.Masks.Own.{
  OwnUnit, Own, max_own, empty_own, had, add_unit, add_units, carry_at, carry, finish_own, own_init,
}
use wc3env.Masks.Own.Had.{Had}
use wc3env.Masks.Own.Closure.{IsClosure, is_closure, had-IsClosure}
use wc3env.Masks.Own.Owned.{
  Role, roles, length-roles, Named, Sums, Makes, Builds, IsDone, Becomes, IsOwned,
}
use wc3env.Masks.Own.Gathered.{living-IsOwned}
use wc3env.Masks.Own.Added.Carried.{roles-carry}
use wc3env.Masks.Own.Added.{
  living, fallen, roles-add_living, dead-add_living, IsAdded, passed, overfull, died, lives,
  add_unit-IsAdded,
}

kept_all {ℓ} : {A : Type ℓ} (n : ℕ) (xs : List A) → length xs ≤ n → xs ≡ take n (xs ++ [])
kept_all n xs h = sym (ap (take n) (append-nil xs) ∙ take_all n xs h)

module _ (r : Reference) {Real : Type 0} (d : Doubles Real) where
  IsOwned-dead :
      (w : Own Real) (us : List (BinUnit Real))
      → length us ≤ 64
      → IsOwned r d w
      → IsOwned r d (record w { dead = us })
  IsOwned-dead w us h v = record {
    few = v.few;
    few_dead = h;
    makes_table = v.makes_table;
    builds_table = v.builds_table;
    done_table = v.done_table;
    soon_table = v.soon_table;
    index_table = v.index_table;
    research_table = v.research_table;
    makes = v.makes;
    builds = v.builds;
    done = v.done;
    soon = v.soon;
    index = v.index;
  }

  IsAdded-IsOwned :
      (u : BinUnit Real) (w w' : Own Real) → IsOwned r d w → IsAdded r d u w w' → IsOwned r d w'
  IsAdded-IsOwned u w w' v (passed a b) = v
  IsAdded-IsOwned u w w' v (overfull a b) = v
  IsAdded-IsOwned u w w' v (died l a b) =
      IsOwned-dead w _ (omega (arith, length-append {0} w.dead (u ∷ []))) v
  IsAdded-IsOwned u w w' v (lives l a b) = living-IsOwned r d u w v l

  -- The units and the dead heroes that are gathered: as many as there is room for, in their order.
  abbrev Gathers : List (BinUnit Real) → Own Real → Own Real → Type 0
  Gathers us w out =
      (roles out.units ≡ take max_own (roles w.units ++ living r d us))
      × (out.dead ≡ take 64 (w.dead ++ fallen r d us))

  Gathers-on :
      (u : BinUnit Real) (us : List (BinUnit Real)) (w w' out : Own Real)
      → IsOwned r d w
      → IsAdded r d u w w'
      → Gathers us w' out
      → Gathers (u ∷ us) w out
  Gathers-on u us w w' out v (passed a b) (p, q) = (
    p ∙ ap (λ l. take max_own (roles w.units ++ l)) (sym (a us)),
    q ∙ elim (b us) [
      | inl e ↦ ap (λ l. take 64 (w.dead ++ l)) (sym e)
      | inr e ↦
          take-append_full 64 w.dead (fallen r d us) e
          ∙ sym (take-append_full 64 w.dead (fallen r d (u ∷ us)) e)
    ],
  )
  Gathers-on u us w w' out v (overfull e b) (p, q) =
      let full : length (roles w.units) ≡ max_own = length-roles w.units ∙ e in
      (
        p
            ∙ take-append_full max_own (roles w.units) (living r d us) full
            ∙ sym (take-append_full max_own (roles w.units) (living r d (u ∷ us)) full),
        q ∙ ap (λ l. take 64 (w.dead ++ l)) (sym (b us)),
      )
  Gathers-on u us w w' out v (died l a b) (p, q) = (
    p ∙ ap (λ l. take max_own (roles w.units ++ l)) (sym (a us)),
    q
        ∙ ap (take 64) (append_assoc w.dead (u ∷ []) (fallen r d us))
        ∙ ap (λ l. take 64 (w.dead ++ l)) (sym (b us)),
  )
  Gathers-on u us w w' out v (lives l a b) (p, q) = (
    p
        ∙ ap (λ rs. take max_own (rs ++ living r d us)) (roles-add_living r d u w)
        ∙ ap (take max_own)
            (append_assoc (roles w.units) ((u, unit_info r u.type_id) ∷ []) (living r d us))
        ∙ ap (λ l. take max_own (roles w.units ++ l)) (sym (a us)),
    q
        ∙ ap (λ l. take 64 (l ++ fallen r d us)) (dead-add_living r d u w)
        ∙ ap (λ l. take 64 (w.dead ++ l)) (sym (b us)),
  )

  add_units-IsOwned :
      (us : List (BinUnit Real)) (w : Own Real)
      → IsOwned r d w
      → IsOwned r d (add_units r d us w) × Gathers us w (add_units r d us w)
  unfolding add_units living fallen
  add_units-IsOwned [] w v =
      (v, (kept_all max_own (roles w.units) v.few, kept_all 64 w.dead v.few_dead))
  add_units-IsOwned (u ∷ us) w v =
      let a = add_unit-IsAdded r d u w v in
      let (v', g) = add_units-IsOwned us (add_unit r d u w) (IsAdded-IsOwned u w _ v a) in
      (v', Gathers-on u us w (add_unit r d u w) (add_units r d us (add_unit r d u w)) v a g)

  nothing-Sums : (P : Role Real → ℕ → Type 0) (places : ℕ) → Sums P [] (map_init places)
  nothing-Sums P places c = (λ h. absurd (ground (arith, has-init places c)), λ q. elim q.1 [ ])

  empty-IsOwned : (h : Stock) → IsOwned r d (empty_own h)
  unfolding empty_own
  empty-IsOwned h = record {
    few = omega arith;
    few_dead = omega arith;
    makes_table = init-IsTable 128 (omega arith);
    builds_table = init-IsTable 64 (omega arith);
    done_table = init-IsTable 64 (omega arith);
    soon_table = init-IsTable 64 (omega arith);
    index_table = init-IsTable 2048 (omega arith);
    research_table = init-IsTable 128 (omega arith);
    makes = nothing-Sums (Makes r d) 128;
    builds = nothing-Sums (Builds r d) 64;
    done = nothing-Sums (IsDone r d) 64;
    soon = nothing-Sums (Becomes r d) 64;
    index = λ id at e. absurd (ground (arith, get-init 2048 id));
  }

  -- What `own_init` makes of an observation.
  pub record IsOwn (o : Obs Real) (w : Own Real) : Type 0 where
    pub units : roles w.units ≡ take max_own (living r d o.units)
    pub dead : w.dead ≡ take 64 (fallen r d o.units)
    pub makes_table : IsTable w.makes
    pub builds_table : IsTable w.builds
    pub makes : Sums (Makes r d) (roles w.units) w.makes
    pub builds : Sums (Builds r d) (roles w.units) w.builds
    pub done : Sums (IsDone r d) (roles w.units) w.done
    pub have_soon :
        (c : ℕ)
        → (has w.have_soon c ≡ true)
          ↔ (((x : Role Real) × Memᴰ x (roles w.units) × Becomes r d x c) ⊎ Had r w.done c)
    pub index : (id at : ℕ) → map_get w.index id ≡ some at → Named (roles w.units) at id

  of_closure :
      (o : Obs Real) (w : Own Real)
      → IsOwned r d w
      → roles w.units ≡ take max_own (living r d o.units)
      → w.dead ≡ take 64 (fallen r d o.units)
      → (soon : Option (Map ℕ)) → had r w.done w.have_soon ≡ soon
      → IsClosure r w.done w.have_soon soon
      → (w' : Own Real) × (finish_own r d o w soon ≡ some w') × IsOwn o w'
  unfolding finish_own
  of_closure o w v units dead soon e (is_closure {soon' = s} t h) = (
    _,
    refl,
    record {
      units = roles-carry r d w.index o.inventory w.units ∙ units;
      dead = dead;
      makes_table = v.makes_table;
      builds_table = v.builds_table;
      makes = kept (Makes r d) w.makes v.makes;
      builds = kept (Builds r d) w.builds v.builds;
      done = kept (IsDone r d) w.done v.done;
      have_soon = λ c. (
        λ p. elim ((h c).0 p) [
          | inl q ↦ inl ((kept (Becomes r d) w.have_soon v.soon c).0 q)
          | inr q ↦ inr q
        ],
        λ s. (h c).1 (elim s [
          | inl q ↦ inl ((kept (Becomes r d) w.have_soon v.soon c).1 q)
          | inr q ↦ inr q
        ]),
      );
      index = λ id at q.
          subst (λ us. Named us at id) (sym (roles-carry r d w.index o.inventory w.units))
            (v.index id at q);
    },
  )
    where
      kept :
          (P : Role Real → ℕ → Type 0) (m : Map ℕ)
          → Sums P (roles w.units) m
          → Sums P (roles (carry r d w.index o.inventory w.units)) m
      kept P m h = subst (λ us. Sums P us m) (sym (roles-carry r d w.index o.inventory w.units)) h

  -- `own_init` ends on every observation, whatever the reference table holds. The units are the first
  -- 1024 of the observer's living r d ones, with the data of their types, in their order, and the dead
  -- heroes the first 64. What can be made is exactly what the finished or nearly finished structures
  -- among those units train, research and upgrade into, and what can be built what the workers among
  -- them build. Had, or soon, is just what an upgrading structure becomes, what is finished, and every
  -- type that upgrades into one that is had. Each id of the index is that of the unit at its place.
  pub own_init-IsOwn : (o : Obs Real) → (w : Own Real) × (own_init r d o ≡ some w) × IsOwn o w
  unfolding own_init empty_own
  own_init-IsOwn o =
      let (v, g) = add_units-IsOwned o.units (empty_own o.h) (empty-IsOwned o.h) in
      of_closure o (add_units r d o.units (empty_own o.h)) v g.0 g.1 _ refl
        (had-IsClosure r _ _ v.done_table v.soon_table)

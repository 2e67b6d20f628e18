-- ===== src/Masks/Own/Init/Counts.antt =====
-- wc3hook/masks.c: what `own_init` counts and takes over: the stock, the heroes, the levels of research.
use wc3env.Prelude.{
  ℕ, ◌+◌, ◌<◌, ◌≡◌, ◌↔◌, inl, inr, refl, sym, ap, subst, ◌∙◌, Bool, true, false, not, ◌&&◌, ◌||◌,
  Option, none, some, List, [], ◌∷◌, ◌++◌, if◌then◌else◌, ltb, ◌==◌, ==→eq, ==→ne, arith,
  Bool-cases, length,
}
use wc3env.Prelude.Int.{sub_ℕ}
use wc3env.Prelude.Words.{test_bit}
use wc3env.Features.{Map, map_init, map_put, map_get}
use wc3env.Features.Growth.{IsTable, IsUpdate, is_update, map_put-IsUpdate, init-IsTable}
use wc3env.Features.Sets.{get-init}
use wc3env.Masks.{
  Reference, Doubles, BinUnit, Stock, Obs, unit_info, bu_structure, bu_hero, bu_inside, bu_illusion,
  bu_own, bu_dead,
}
use wc3env.Masks.Own.{
  Own, max_own, carry, empty_own, add_structure, add_living, add_unit, add_units, levels_of,
  finish_own, own_init,
}
use wc3env.Masks.Own.Owned.{Role, roles}
use wc3env.Masks.Own.Added.{roles-add_living}
use wc3env.Masks.Own.Added.Carried.{roles-carry}

module _ {Real : Type 0} where
  -- How many units of a list are of a kind.
  abbrev pub counted : (Role Real → Bool) → List (Role Real) → ℕ
  counted p [] = 0
  counted p (x ∷ xs) = (if p x then 1 else 0) + counted p xs

  abbrev pub is_structure : Role Real → Bool
  is_structure x = test_bit x.0.flags bu_structure

  -- A hero, and no illusion of one.
  abbrev pub is_hero : Role Real → Bool
  is_hero x = test_bit x.0.flags bu_hero && not (test_bit x.0.flags bu_illusion)

  -- A unit that can walk, and is not inside another.
  abbrev pub is_mobile : Role Real → Bool
  is_mobile x = not (test_bit x.0.flags bu_structure || test_bit x.0.flags bu_inside)

  -- A structure that is being built or upgraded.
  abbrev pub is_busy : Role Real → Bool
  is_busy x = test_bit x.0.flags bu_structure && not (x.0.state == 0)

  counted-snoc :
      (p : Role Real → Bool) (xs : List (Role Real)) (x : Role Real)
      → counted p (xs ++ x ∷ []) ≡ counted p xs + (if p x then 1 else 0)
  counted-snoc p [] x = omega arith
  counted-snoc p (y ∷ xs) x = omega (arith, counted-snoc p xs x)

  -- The counts before the last part of `own_init`.
  record IsCounted (h : Stock) (w : Own Real) : Type 0 where
    pub stock : w.h ≡ h
    pub heroes : w.hero_count ≡ counted is_hero (roles w.units)
    pub mobile : w.mobile ≡ counted is_mobile (roles w.units)
    pub structures : w.structures ≡ counted is_structure (roles w.units)
    pub cancel : w.cancel ≡ ltb 0 (counted is_busy (roles w.units))
    pub research : w.research ≡ map_init 128

  empty-IsCounted : (h : Stock) → IsCounted h (empty_own h)
  unfolding empty_own
  empty-IsCounted h = record {
    stock = refl;
    heroes = refl;
    mobile = refl;
    structures = refl;
    cancel = refl;
    research = refl;
  }

-- No level is level 0.
abbrev pub level_of : Option ℕ → ℕ
level_of none = 0
level_of (some level) = level

-- The level of an upgrade by a list of levels: the one that is listed last, or else `level`.
abbrev pub observed_level : ℕ → List (ℕ × ℕ) → ℕ → ℕ
observed_level c [] level = level
observed_level c ((type, l) ∷ rest) level = observed_level c rest (if type == c then l else level)

module _ (r : Reference) {Real : Type 0} (d : Doubles Real) where
  -- What one living unit adds.
  record Adds (x : Role Real) (w w' : Own Real) : Type 0 where
    pub units : roles w'.units ≡ roles w.units ++ x ∷ []
    pub stock : w'.h ≡ w.h
    pub heroes : w'.hero_count ≡ w.hero_count + (if is_hero x then 1 else 0)
    pub mobile : w'.mobile ≡ w.mobile + (if is_mobile x then 1 else 0)
    pub structures : w'.structures ≡ w.structures + (if is_structure x then 1 else 0)
    pub cancel : w'.cancel ≡ (w.cancel || is_busy x)
    pub research : w'.research ≡ w.research

  or_none : (b : Bool) → b ≡ (b || false)
  or_none true = refl
  or_none false = refl

  add_living-Adds :
      (u : BinUnit Real) (w : Own Real) → Adds (u, unit_info r u.type_id) w (add_living r d u w)
  unfolding add_living add_structure
  add_living-Adds u w = elim (Bool-cases (test_bit u.flags bu_structure)) [
    | inl s ↦ record {
      units = roles-add_living r d u w;
      stock = ground arith;
      heroes = ground arith;
      mobile = ground arith;
      structures = ground arith;
      cancel = ground arith;
      research = ground arith;
    }
    | inr s ↦ record {
      units = roles-add_living r d u w;
      stock = ground arith;
      heroes = ground arith;
      mobile = ground arith;
      structures = ground arith;
      cancel = ground arith;
      research = ground arith;
    }
  ]

  Adds-IsCounted :
      (h : Stock) (x : Role Real) (w w' : Own Real) → IsCounted h w → Adds x w w' → IsCounted h w'
  Adds-IsCounted h x w w' c a = record {
    stock = a.stock ∙ c.stock;
    heroes =
        a.heroes
        ∙ ap (λ n. n + (if is_hero x then 1 else 0)) c.heroes
        ∙ sym (ap (counted is_hero) a.units ∙ counted-snoc is_hero (roles w.units) x);
    mobile =
        a.mobile
        ∙ ap (λ n. n + (if is_mobile x then 1 else 0)) c.mobile
        ∙ sym (ap (counted is_mobile) a.units ∙ counted-snoc is_mobile (roles w.units) x);
    structures =
        a.structures
        ∙ ap (λ n. n + (if is_structure x then 1 else 0)) c.structures
        ∙ sym (ap (counted is_structure) a.units ∙ counted-snoc is_structure (roles w.units) x);
    cancel =
        a.cancel
        ∙ ap (λ b. b || is_busy x) c.cancel
        ∙ by_busy (is_busy x) (counted is_busy (roles w.units))
        ∙ sym (
            ap (λ rs. ltb 0 (counted is_busy rs)) a.units
            ∙ ap (ltb 0) (counted-snoc is_busy (roles w.units) x));
    research = a.research ∙ c.research;
  }
    where
      by_busy : (b : Bool) (n : ℕ) → (ltb 0 n || b) ≡ ltb 0 (n + (if b then 1 else 0))
      by_busy true n = ground arith
      by_busy false n = ground arith

  add_unit-IsCounted :
      (h : Stock) (u : BinUnit Real) (w : Own Real) → IsCounted h w → IsCounted h (add_unit r d u w)
  unfolding add_unit
  add_unit-IsCounted h u w c = elim (Bool-cases (test_bit u.flags bu_own)) [
    | inr o ↦ rw o c
    | inl o ↦ elim (Bool-cases (test_bit u.flags bu_dead)) [
      | inl e ↦ elim (Bool-cases (test_bit u.flags bu_hero && ltb (length w.dead) 64)) [
        | inl k ↦
            rw (o, e, k)
              (record {
                stock = c.stock;
                heroes = c.heroes;
                mobile = c.mobile;
                structures = c.structures;
                cancel = c.cancel;
                research = c.research;
              })
        | inr k ↦ rw (o, e, k) c
      ]
      | inr e ↦ elim (Bool-cases (length w.units == max_own)) [
        | inl k ↦ rw (o, e, k) c
        | inr k ↦
            rw (o, e, k) (Adds-IsCounted h (u, unit_info r u.type_id) w _ c (add_living-Adds u w))
      ]
    ]
  ]

  add_units-IsCounted :
      (h : Stock) (us : List (BinUnit Real)) (w : Own Real)
      → IsCounted h w
      → IsCounted h (add_units r d us w)
  unfolding add_units
  add_units-IsCounted h [] w c = c
  add_units-IsCounted h (u ∷ us) w c =
      add_units-IsCounted h us (add_unit r d u w) (add_unit-IsCounted h u w c)

  -- One entry of the list, put.
  level-put :
      (c type level : ℕ) (m : Map ℕ)
      → IsTable m
      → IsTable (map_put type level m)
        × (level_of (map_get (map_put type level m) c)
            ≡ (if type == c then level else level_of (map_get m c)))
  level-put c type level m t = by_update (map_put-IsUpdate m type level t)
    where
      by_update :
          IsUpdate m type level (map_put type level m)
          → IsTable (map_put type level m)
            × (level_of (map_get (map_put type level m) c)
                ≡ (if type == c then level else level_of (map_get m c)))
      by_update (is_update t' same other) = (
        t',
        elim (Bool-cases (type == c)) [
          | inl e ↦ rw e (
              ap (λ k. level_of (map_get (map_put type level m) k)) (sym (==→eq type c e))
              ∙ ap level_of same)
          | inr e ↦ rw e (ap level_of (other c (==→ne type c e)))
        ],
      )

  level-levels_of :
      (c : ℕ) (l : List (ℕ × ℕ)) (m : Map ℕ)
      → IsTable m
      → level_of (map_get (levels_of r d l m) c) ≡ observed_level c l (level_of (map_get m c))
  unfolding levels_of
  level-levels_of c [] m t = refl
  level-levels_of c ((type, level) ∷ rest) m t =
      level-levels_of c rest (map_put type level m) (level-put c type level m t).0
      ∙ ap (observed_level c rest) (level-put c type level m t).1

  -- What `own_init` takes over from an observation, and counts in it.
  pub record IsStocked (o : Obs Real) (w : Own Real) : Type 0 where
    pub stock : w.h ≡ o.h
    pub food : w.food_free ≡ sub_ℕ o.h.food_cap o.h.food_used
    pub heroes : w.hero_count ≡ counted is_hero (roles w.units) + length w.dead
    pub mobile : w.mobile ≡ counted is_mobile (roles w.units)
    pub structures : w.structures ≡ counted is_structure (roles w.units)
    pub cancel : (w.cancel ≡ true) ↔ (0 < counted is_busy (roles w.units) + o.queue)
    pub research : (c : ℕ) → level_of (map_get w.research c) ≡ observed_level c o.research 0

  no_level : (c : ℕ) → level_of (map_get (map_init 128) c) ≡ 0
  no_level c = rw (get-init 128 c) refl

  busy_or_queued : (b : Bool) (n q : ℕ) → b ≡ ltb 0 n → ((b || ltb 0 q) ≡ true) ↔ (0 < n + q)
  busy_or_queued b n q e = (λ h. ground arith, λ h. ground arith)

  finish-IsStocked :
      (o : Obs Real) (w : Own Real) (soon : Option (Map ℕ)) (w' : Own Real)
      → IsCounted o.h w
      → finish_own r d o w soon ≡ some w'
      → IsStocked o w'
  unfolding finish_own
  finish-IsStocked o w none w' c e = absurd (ground arith)
  finish-IsStocked o w (some soon) w' c e =
      of_some _ w'
        (record {
          stock = c.stock;
          food = refl;
          heroes = ap (λ n. n + length w.dead) (c.heroes ∙ ap (counted is_hero) carried);
          mobile = c.mobile ∙ ap (counted is_mobile) carried;
          structures = c.structures ∙ ap (counted is_structure) carried;
          cancel =
              busy_or_queued w.cancel _ o.queue
                (c.cancel ∙ ap (λ rs. ltb 0 (counted is_busy rs)) carried);
          research = λ k. rw c.research (
              level-levels_of k o.research (map_init 128) (init-IsTable 128 (omega arith))
              ∙ ap (observed_level k o.research) (no_level k));
        })
        e
    where
      carried : roles w.units ≡ roles (carry r d w.index o.inventory w.units)
      carried = sym (roles-carry r d w.index o.inventory w.units)

      of_some : (x y : Own Real) → IsStocked o x → some x ≡ some y → IsStocked o y
      of_some x y h q =
          subst (IsStocked o) (ap (λ p. elim p as (λ p. Own Real) [ none ↦ x | some z ↦ z ]) q) h

  pub own_init-IsStocked : (o : Obs Real) (w : Own Real) → own_init r d o ≡ some w → IsStocked o w
  unfolding own_init
  own_init-IsStocked o w e =
      finish-IsStocked o _ _ w
        (add_units-IsCounted o.h o.units (empty_own o.h) (empty-IsCounted o.h)) e

-- ===== src/Masks/Own.antt =====
-- wc3hook/masks.c: what the observer owns (`own_init`).
pub mod Had
pub mod Closure
pub mod Owned
pub mod Offered
pub mod Gathered
pub mod Added
pub mod Init
use wc3env.Prelude.{
  ℕ, zero, suc, ◌+◌, ◌-◌, Bool, true, false, not, ◌&&◌, ◌||◌, Option, none, some, List, [], ◌∷◌,
  ◌++◌, if◌then◌else◌, ltb, ◌==◌, length,
}
use wc3env.Prelude.Int.{ℤ, pos, sub_ℕ}
use wc3env.Prelude.Words.{test_bit}
use wc3env.Features.{Map, map_init, map_put, map_get}
use wc3env.Features.Sets.{has, keys, puts}
use wc3env.Masks.{
  Reference, FtUnit, items, unit_info, Doubles, BinUnit, Stock, Obs, bu_own, bu_structure, bu_hero,
  bu_inside, bu_illusion, bu_dead,
}

-- `orders` are the words of ORDER_WORDS.
pub record OwnUnit (Real : Type 0) : Type 0 where
  pub u : BinUnit Real
  pub info : Option FtUnit
  pub orders : ℕ → ℕ
  pub castable : Bool
  pub cast_other : Bool
  pub learnable : Map ℕ
  pub items : Map ℕ

-- `n` and `dead_heroes` are the lengths of `units` and `dead`; `done` is the local of `own_init`.
pub record Own (Real : Type 0) : Type 0 where
  pub h : Stock
  pub units : List (OwnUnit Real)
  pub index : Map ℕ
  pub have_soon : Map ℕ
  pub research : Map ℕ
  pub makes : Map ℕ
  pub builds : Map ℕ
  pub done : Map ℕ
  pub food_free : ℤ
  pub hero_count : ℕ
  pub dead : List (BinUnit Real)
  pub structures : ℕ
  pub mobile : ℕ
  pub cancel : Bool

abbrev pub max_own : ℕ
max_own = 1024

module _ {Real : Type 0} where
  pub new_own : BinUnit Real → Option FtUnit → OwnUnit Real
  new_own u info = record {
    u = u;
    info = info;
    orders = λ i. 0;
    castable = false;
    cast_other = false;
    learnable = map_init 16;
    items = map_init 16;
  }

  pub empty_own : Stock → Own Real
  empty_own h = record {
    h = h;
    units = [];
    index = map_init 2048;
    have_soon = map_init 64;
    research = map_init 128;
    makes = map_init 128;
    builds = map_init 64;
    done = map_init 64;
    food_free = pos 0;
    hero_count = 0;
    dead = [];
    structures = 0;
    mobile = 0;
    cancel = false;
  }

module _ (r : Reference) where
  pub made : Option FtUnit → Map ℕ → Map ℕ
  made none m = m
  made (some i) m =
      puts (items r i.upgrades_to) (puts (items r i.researches) (puts (items r i.trains) m))

  pub becomes : Option FtUnit → Map ℕ → Map ℕ
  becomes none m = m
  becomes (some i) m = puts (items r i.upgrades_to) m

  pub built_by : Option FtUnit → Map ℕ → Map ℕ
  built_by none m = m
  built_by (some i) m = puts (items r i.builds) m

  -- `base`, if one of what it upgrades into is had.
  pub any_had : Map ℕ → List ℕ → Bool
  any_had m [] = false
  any_had m (k ∷ ks) = has m k || any_had m ks

  -- One round of the closure, over the last `left` types.
  pub upgrade_pass : ℕ → Map ℕ → Map ℕ → Bool → Map ℕ × Map ℕ × Bool
  upgrade_pass zero have soon changed = (have, soon, changed)
  upgrade_pass (suc left) have soon changed =
      let base = r.unit (r.units_n - suc left) in
      let adds = not (has have base.id) && any_had have (items r base.upgrades_to) in
      upgrade_pass left (if adds then map_put base.id 0 have else have)
        (if adds then map_put base.id 0 soon else soon) (adds || changed)

  -- Rounds until none adds a type; `none` means that the fuel ran out.
  pub upgrades : ℕ → Map ℕ → Map ℕ → Option (Map ℕ)
  upgrades zero have soon = none
  upgrades (suc fuel) have soon =
      let (have', soon', changed) = upgrade_pass r.units_n have soon false in
      let rest = upgrades fuel have' soon' in if changed then rest else some soon'

  -- What is done, and what those types were.
  pub had : Map ℕ → Map ℕ → Option (Map ℕ)
  had done soon = upgrades (r.units_n + 1) (puts (keys done) (map_init 64)) (puts (keys done) soon)

  module _ {Real : Type 0} (d : Doubles Real) where
    pub nearly_built : BinUnit Real → Bool
    nearly_built u =
        d.above u.max_hp (d.of_int 0)
        && d.at_least (d.over (d.minus (d.over u.hp u.max_hp) d.tenth) d.nine_tenths) d.nine_tenths

    pub is_built : BinUnit Real → Bool
    is_built u = not (u.state == 1) || nearly_built u

    pub add_structure : BinUnit Real → Option FtUnit → Own Real → Own Real
    add_structure u info w = record w {
      structures = w.structures + 1;
      cancel = w.cancel || not (u.state == 0);
      done = if is_built u then map_put u.type_id 0 w.done else w.done;
      makes = if is_built u then made info w.makes else w.makes;
      have_soon = if u.state == 2 then becomes info w.have_soon else w.have_soon;
    }

    pub add_living : BinUnit Real → Own Real → Own Real
    add_living u w =
        let info = unit_info r u.type_id in
        let named = record w {
          units = w.units ++ new_own u info ∷ [];
          index = map_put u.unit_id (length w.units) w.index;
          hero_count =
              (if test_bit u.flags bu_hero && not (test_bit u.flags bu_illusion)
                then w.hero_count + 1
                else w.hero_count);
          mobile =
              (if not (test_bit u.flags bu_structure || test_bit u.flags bu_inside)
                then w.mobile + 1
                else w.mobile);
          builds = built_by info w.builds;
        } in
        if test_bit u.flags bu_structure then add_structure u info named else named

    pub add_unit : BinUnit Real → Own Real → Own Real
    add_unit u w =
        if not (test_bit u.flags bu_own)
        then w
        else if test_bit u.flags bu_dead
        then (if test_bit u.flags bu_hero && ltb (length w.dead) 64
            then record w { dead = w.dead ++ u ∷ [] }
            else w)
        else if length w.units == max_own
        then w
        else add_living u w

    pub add_units : List (BinUnit Real) → Own Real → Own Real
    add_units [] w = w
    add_units (u ∷ us) w = add_units us (add_unit u w)

    pub levels_of : List (ℕ × ℕ) → Map ℕ → Map ℕ
    levels_of [] m = m
    levels_of ((type, level) ∷ rest) m = levels_of rest (map_put type level m)

    -- The item goes to the unit at place `at`.
    pub carry_at : ℕ → ℕ → List (OwnUnit Real) → List (OwnUnit Real)
    carry_at at item [] = []
    carry_at zero item (u ∷ us) = record u { items = map_put item 0 u.items } ∷ us
    carry_at (suc at) item (u ∷ us) = u ∷ carry_at at item us

    pub carry : Map ℕ → List (ℕ × ℕ) → List (OwnUnit Real) → List (OwnUnit Real)
    carry index [] us = us
    carry index ((unit, item) ∷ rest) us =
        carry index rest (elim (map_get index unit) [ none ↦ us | some at ↦ carry_at at item us ])

    -- The last part of `own_init`, once the loop over the upgrades gave its set.
    pub finish_own : Obs Real → Own Real → Option (Map ℕ) → Option (Own Real)
    finish_own o w none = none
    finish_own o w (some soon) = some (record w {
      have_soon = soon;
      hero_count = w.hero_count + length w.dead;
      cancel = w.cancel || ltb 0 o.queue;
      research = levels_of o.research w.research;
      food_free = sub_ℕ o.h.food_cap o.h.food_used;
      units = carry w.index o.inventory w.units;
    })

    pub own_init : Obs Real → Option (Own Real)
    own_init o =
        let w = add_units o.units (empty_own o.h) in finish_own o w (had w.done w.have_soon)

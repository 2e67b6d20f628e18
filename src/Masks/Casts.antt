-- ===== src/Masks/Casts.antt =====
-- wc3hook/masks.c: what heroes may learn, what units may cast, and what they carry.
use Prim.Native.Nat.{bit_or}
use wc3env.Prelude.{
  ℕ, zero, suc, ◌+◌, ◌-◌, ◌*◌, ◌/◌, ◌%◌, ◌^◌, Bool, true, false, not, ◌&&◌, Option, none, some,
  List, [], ◌∷◌, if◌then◌else◌, ltb, leb, ◌==◌,
}
use wc3env.Prelude.Words.{test_bit}
use wc3env.Features.{Map, map_get, map_put}
use wc3env.Features.Sets.{keys}
use wc3env.Masks.{
  Reference, FtAbility, FtAbilityLevel, items, ability_info, type_orders, Doubles, BinUnit,
  BinAbility, Obs, ft_worker, order_first, order_count, bu_hero, bu_illusion,
}
use wc3env.Masks.Own.{OwnUnit}
use wc3env.Masks.Allowed.{Allowed, allow, allow_all}

module _ (r : Reference) where
  -- The last record of a unit counts.
  pub points_of : ℕ → List (ℕ × ℕ) → ℕ → ℕ
  points_of id [] points = points
  points_of id ((unit, p) ∷ rest) points = points_of id rest (if unit == id then p else points)

  abbrev pub limits : Option FtAbility → ℕ × ℕ × ℕ
  limits none = (3, 1, 2)
  limits (some ab) = (ab.max_level, ab.required_level, ab.level_skip)

  -- The last place of the ability's levels that is `level`'s.
  pub level_at : ℕ → ℕ → ℕ → Option FtAbilityLevel → Option FtAbilityLevel
  level_at level first zero found = found
  level_at level first (suc left) found =
      let x = r.ability_level first in
      level_at level (suc first) left (if x.level == level then some x else found)

  abbrev pub or_first : Option FtAbilityLevel → Option FtAbilityLevel → Option FtAbilityLevel
  or_first none first = first
  or_first (some x) first = some x

  -- The record's orders that may be given: `cast` ones only when ready and paid for.
  pub ready_orders : Bool → ℕ → ℕ → List ℕ
  ready_orders ready first zero = []
  ready_orders ready first (suc left) =
      let ord = r.order first in
      let rest = ready_orders ready (suc first) left in
      if ord.cast && not ready then rest else ord.order ∷ rest

  module _ {Real : Type 0} where
    pub known_level : ℕ → ℕ → List (BinAbility Real) → ℕ → ℕ
    known_level id code [] level = level
    known_level id code (a ∷ as') level =
        known_level id code as' (if a.unit_id == id && a.ability_id == code then a.level else level)

    pub can_learn : Obs Real → BinUnit Real → ℕ → Bool
    can_learn o u code =
        let known = known_level u.unit_id code o.abilities 0 in
        let (max_level, required, skip) = limits (ability_info r code) in
        ltb known max_level && leb (required + known * skip) u.level

    pub learn_each : Obs Real → BinUnit Real → List ℕ → Map ℕ → Allowed → Map ℕ × Allowed
    learn_each o u [] m a = (m, a)
    learn_each o u (code ∷ codes) m a =
        learn_each o u codes (if can_learn o u code then map_put code 0 m else m)
          (if can_learn o u code then allow r a code else a)

    abbrev pub hero_codes : OwnUnit Real → List ℕ
    hero_codes h = elim h.info [ none ↦ [] | some i ↦ items r i.hero_abilities ]

    pub learns : Obs Real → BinUnit Real → Bool
    learns o u =
        test_bit u.flags bu_hero
        && not (test_bit u.flags bu_illusion)
        && ltb 0 (points_of u.unit_id o.heroes 0)

    pub learn_unit : Obs Real → OwnUnit Real → Allowed → OwnUnit Real × Allowed
    learn_unit o h a =
        if learns o h.u
        then (let (m, a') = learn_each o h.u (hero_codes h) h.learnable a in
            (record h { learnable = m }, a'))
        else (h, a)

    pub learnable : Obs Real → List (OwnUnit Real) → Allowed → List (OwnUnit Real) × Allowed
    learnable o [] a = ([], a)
    learnable o (h ∷ hs) a =
        let (h', a') = learn_unit o h a in let (hs', a'') = learnable o hs a' in (h' ∷ hs', a'')

    -- Of an order outside the words only `cast_other` is kept.
    pub set_order : ℕ → OwnUnit Real → OwnUnit Real
    set_order order u =
        let k = order - order_first in
        if leb order_first order && ltb order (order_first + order_count)
        then record u {
          castable = true;
          orders = λ i. if i == k / 32 then bit_or (u.orders i) (2 ^ (k % 32)) else u.orders i;
        }
        else record u { castable = true; cast_other = true }

    pub add_orders : List ℕ → OwnUnit Real → OwnUnit Real
    add_orders [] u = u
    add_orders (k ∷ ks) u = add_orders ks (set_order k u)

    -- The orders of a unit's type.
    pub type_casts : OwnUnit Real → List ℕ
    type_casts u = elim (type_orders r u.u.type_id) [
      | some t ↦ items r t.orders
      | none ↦ if u.u.type_id / 2 ^ 24 == 110 then r.unknown_orders else []
    ]

    pub works : OwnUnit Real → Bool
    works u = elim u.info [ none ↦ false | some i ↦ test_bit i.flags ft_worker ]

    pub cast_unit : OwnUnit Real → Allowed → OwnUnit Real × Allowed
    cast_unit u a =
        let working = if works u then 852017 ∷ 852018 ∷ [] else [] in
        (
          add_orders (type_casts u) (add_orders working u),
          allow_all r (type_casts u) (allow_all r working a),
        )

    pub cast_units : List (OwnUnit Real) → Allowed → List (OwnUnit Real) × Allowed
    cast_units [] a = ([], a)
    cast_units (u ∷ us) a =
        let (u', a') = cast_unit u a in let (us', a'') = cast_units us a' in (u' ∷ us', a'')

    module _ (d : Doubles Real) where
      pub ability_orders : BinAbility Real → Real → List ℕ
      ability_orders rec mana = elim (ability_info r rec.ability_id) [
        | none ↦ []
        | some ab ↦
            if rec.level == 0
            then []
            else (let ready =
                  d.at_least (d.of_int 0) rec.cooldown_remaining
                  && d.at_least mana (d.of_int rec.mana_cost) in
                elim (or_first (level_at rec.level ab.levels ab.levels_n none)
                  (level_at 1 ab.levels ab.levels_n none)) [
                    | none ↦ []
                    | some lv ↦ ready_orders ready lv.orders lv.orders_n
                  ])
      ]

      pub cast_at :
          ℕ → BinAbility Real → List (OwnUnit Real) → Allowed → List (OwnUnit Real) × Allowed
      cast_at at rec [] a = ([], a)
      cast_at zero rec (u ∷ us) a =
          let orders = ability_orders rec u.u.mana in
          (add_orders orders u ∷ us, allow_all r orders a)
      cast_at (suc at) rec (u ∷ us) a = let (us', a') = cast_at at rec us a in (u ∷ us', a')

      -- A unit that is not the observer's has mana 0, and its orders count for the arguments only.
      pub cast_ability :
          Map ℕ → BinAbility Real → List (OwnUnit Real) → Allowed → List (OwnUnit Real) × Allowed
      cast_ability index rec us a = elim (map_get index rec.unit_id) [
        | none ↦ (us, allow_all r (ability_orders rec (d.of_int 0)) a)
        | some at ↦ cast_at at rec us a
      ]

      pub cast_abilities :
          Map ℕ
          → List (BinAbility Real)
          → List (OwnUnit Real)
          → Allowed
          → List (OwnUnit Real) × Allowed
      cast_abilities index [] us a = (us, a)
      cast_abilities index (rec ∷ recs) us a =
          let (us', a') = cast_ability index rec us a in cast_abilities index recs us' a'

      pub castable :
          Obs Real → Map ℕ → List (OwnUnit Real) → Allowed → List (OwnUnit Real) × Allowed
      castable o index us a =
          let (us', a') = cast_units us a in cast_abilities index o.abilities us' a'

    pub carried : List (OwnUnit Real) → Allowed → Allowed
    carried [] a = a
    carried (u ∷ us) a = carried us (allow_all r (keys u.items) a)

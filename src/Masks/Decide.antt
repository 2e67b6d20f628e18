-- ===== src/Masks/Decide.antt =====
-- wc3hook/masks.c: `feat_masks`, the masks that go out, and the kinds of FT_KINDS.

use wc3env.Prelude.{
  ℕ, zero, suc, ◌+◌, ◌-◌, ◌*◌, ◌/◌, ◌%◌, ◌^◌, Bool, true, false, not, ◌&&◌, ◌||◌, Option, none,
  some, List, [], ◌∷◌, if◌then◌else◌, ltb, ◌==◌, length,
}
use wc3env.Prelude.Int.{pos}
use wc3env.Prelude.Words.{test_bit}
use wc3env.Json.{Bytes, codes}
use wc3env.Features.{Map, map_get}
use wc3env.Features.Sets.{keys}
use wc3env.Masks.{
  Reference, items, leb_int, Doubles, BinUnit, Obs, bu_structure, ft_acting, order_first,
  order_count,
}
use wc3env.Masks.Own.{Own, OwnUnit}
use wc3env.Masks.Allowed.{
  Allowed, nothing, no_bits, set_bit, argument_of, allow, trainable, researchable, buildable,
}
use wc3env.Masks.Casts.{learnable, castable, carried}

pub data Kind : Type 0 where
  noop : Kind
  move : Kind
  rally : Kind
  cancel : Kind
  buy : Kind
  revive : Kind
  train : Kind
  research : Kind
  build : Kind
  learn : Kind
  cast : Kind
  item : Kind

-- The list KINDS, in its order.
unfoldable pub known_kinds : List (Bytes × Kind)
known_kinds =
    (codes "noop", noop)
    ∷ (codes "move", move)
    ∷ (codes "attack_move", move)
    ∷ (codes "smart", move)
    ∷ (codes "attack", move)
    ∷ (codes "stop", move)
    ∷ (codes "hold", move)
    ∷ (codes "train", train)
    ∷ (codes "build", build)
    ∷ (codes "research", research)
    ∷ (codes "rally", rally)
    ∷ (codes "cast", cast)
    ∷ (codes "cast_point", cast)
    ∷ (codes "cast_unit", cast)
    ∷ (codes "learn", learn)
    ∷ (codes "use_item", item)
    ∷ (codes "buy", buy)
    ∷ (codes "sell", item)
    ∷ (codes "drop_item", item)
    ∷ (codes "revive", revive)
    ∷ (codes "cancel", cancel)
    ∷ []

unfoldable pub same_bytes : Bytes → Bytes → Bool
same_bytes [] [] = true
same_bytes [] (c ∷ t) = false
same_bytes (b ∷ s) [] = false
same_bytes (b ∷ s) (c ∷ t) = b == c && same_bytes s t

pub kind_in : List (Bytes × Kind) → Bytes → Option Kind
kind_in [] name = none
kind_in ((n, k) ∷ rest) name =
    let other = kind_in rest name in if same_bytes n name then some k else other

-- `none` is the abort.
unfoldable pub kind_of : Bytes → Option Kind
unfolding kind_in known_kinds same_bytes
kind_of name = kind_in known_kinds name

-- A type of action as FT_KINDS has it, with its kind: whether it takes an argument, has an actor, and
-- has an actor that does not depend on the argument.
pub record Action : Type 0 where
  pub kind : Kind
  pub takes_argument : Bool
  pub has_actor : Bool
  pub any_argument : Bool

abbrev pub n_args : ℕ
n_args = 2828

abbrev pub arg_bytes : ℕ
arg_bytes = 354

abbrev pub max_actor : ℕ
max_actor = 4096

-- The rows that `feat_step` filled: the owner's class and the unit of each.
pub record Rows : Type 0 where
  pub count : ℕ
  pub owner : ℕ → ℕ
  pub unit_id : ℕ → ℕ

-- The sets of every kind, and the own units with what they may learn, cast and drop.
pub record Sets (Real : Type 0) : Type 0 where
  pub allowed : Kind → Allowed
  pub units : List (OwnUnit Real)

-- Every argument: all bits, but those of the last byte that are past the last argument.
unfoldable pub all_bits : ℕ → ℕ
all_bits i = if i == arg_bytes - 1 then 255 * 2 ^ (8 - n_args % 8) % 256 else 255

-- `rows` are the bits of the rows, by argument.
pub record ArgRows : Type 0 where
  pub rows : ℕ → ℕ → ℕ
  pub touched : ℕ → Bool

abbrev pub no_rows : ArgRows
no_rows = record { rows = λ k. no_bits; touched = λ k. false }

module _ (r : Reference) where
  pub revivable : {Real : Type 0} → List (BinUnit Real) → Allowed → Allowed
  revivable [] a = a
  revivable (u ∷ us) a = revivable us (allow r a u.type_id)

  module _ {Real : Type 0} (d : Doubles Real) where
    unfoldable pub sets : Obs Real → Own Real → Sets Real
    sets o w =
        let (us, learns) = learnable r o w.units nothing in
        let (us', casts) = castable r d o w.index us nothing in
        record {
          units = us';
          allowed = λ k. elim k [
            | train ↦ trainable r w nothing
            | research ↦ researchable r w nothing
            | build ↦ buildable r w nothing
            | learn ↦ learns
            | cast ↦ casts
            | item ↦ carried r us' nothing
            | revive ↦ revivable w.dead nothing
            | buy ↦ record { bits = all_bits; any = true }
            | _ ↦ nothing
          ];
        }

  module _ {Real : Type 0} where
    unfoldable pub type_mask : Own Real → Sets Real → Kind → Bool
    type_mask w s noop = true
    type_mask w s move = ltb 0 w.mobile
    type_mask w s rally = ltb 0 w.structures
    type_mask w s cancel = w.cancel
    type_mask w s buy = not (leb_int w.h.gold (pos 0)) && ltb 0 (length w.units)
    type_mask w s revive = ltb 0 (length w.dead)
    type_mask w s kind = (s.allowed kind).any

  -- The last of the first `count` rows that shows the unit at place `at`.
  pub row_of : Map ℕ → Rows → ℕ → ℕ → Option ℕ
  row_of index rows zero at = none
  row_of index rows (suc count) at =
      let before = row_of index rows count at in
      if rows.owner count == 1
      then elim (map_get index (rows.unit_id count)) [
        | none ↦ before
        | some i ↦ if i == at then some count else before
      ]
      else before

  unfoldable pub mark : ℕ → ArgRows → ℕ → ArgRows
  mark row m raw =
      let k = argument_of r raw in
      if k == 0 then m else record {
        rows = λ j. if j == k then set_bit (m.rows j) row else m.rows j;
        touched = λ j. j == k || m.touched j;
      }

  unfoldable pub mark_all : ℕ → List ℕ → ArgRows → ArgRows
  mark_all row [] m = m
  mark_all row (raw ∷ raws) m = mark_all row raws (mark row m raw)

  -- The orders whose bits are on, of the last `left` ones.
  pub orders_on : ℕ → (ℕ → ℕ) → List ℕ
  orders_on zero words = []
  orders_on (suc left) words =
      let k = order_count - suc left in
      let rest = orders_on left words in
      if test_bit (words (k / 32)) (k % 32) then (order_first + k) ∷ rest else rest

  module _ {Real : Type 0} where
    -- What a unit may do, by the kinds of GROUPS.
    pub does : Kind → OwnUnit Real → List ℕ
    does build u = elim u.info [ none ↦ [] | some i ↦ items r i.builds ]
    does learn u = keys u.learnable
    does cast u = orders_on order_count u.orders
    does item u = keys u.items
    does kind u = []

    -- The units from the place `at` on.
    unfoldable pub mark_units : Kind → (ℕ → Option ℕ) → ℕ → List (OwnUnit Real) → ArgRows → ArgRows
    mark_units kind row at [] m = m
    mark_units kind row at (u ∷ us) m =
        mark_units kind row (suc at) us
          (elim (row at) [ none ↦ m | some n ↦ mark_all n (does kind u) m ])

    -- Units inside a burrow, mine or transport come out.
    pub may_act : Kind → OwnUnit Real → Bool
    may_act buy u = true
    may_act rally u = test_bit u.u.flags bu_structure
    may_act cancel u = test_bit u.u.flags bu_structure
    may_act kind u =
        not (test_bit u.u.flags bu_structure)
        || elim u.info as (λ o. Bool) [ none ↦ false | some i ↦ test_bit i.flags ft_acting ]

    pub act_rows : Kind → (ℕ → Option ℕ) → ℕ → List (OwnUnit Real) → (ℕ → ℕ) → ℕ → ℕ
    act_rows kind row at [] bits = bits
    act_rows kind row at (u ∷ us) bits =
        act_rows kind row (suc at) us
          (elim (row at) [ none ↦ bits | some n ↦ if may_act kind u then set_bit bits n else bits ])

-- ===== src/Masks.antt =====
-- wc3hook/masks.c and the types of features_table.h: the reference tables, the observation as the
-- masks read it, and the search of a table. The contents of the generated tables are a parameter.
-- Counts and levels, which are never negative, are ℕ; costs and the player's stock are ℤ.
pub mod Own
pub mod Allowed
pub mod Casts
pub mod Decide
pub mod Tables
pub mod Tests
use wc3env.Prelude.{
  ℕ, zero, suc, ◌+◌, ◌-◌, ◌/◌, Bool, ◌&&◌, ◌||◌, Option, none, some, List, [], ◌∷◌, if◌then◌else◌,
  ltb, leb, ◌==◌,
}
use wc3env.Prelude.Int.{ℤ, pos_part, neg_part}

-- A slice of the pool.
pub record FtList : Type 0 where
  pub offset : ℕ
  pub count : ℕ

pub record FtUnit : Type 0 where
  pub id : ℕ
  pub flags : ℕ
  pub gold : ℤ
  pub lumber : ℤ
  pub food : ℤ
  pub requires : FtList
  pub groups : ℕ
  pub groups_n : ℕ
  pub trains : FtList
  pub researches : FtList
  pub upgrades_to : FtList
  pub builds : FtList
  pub hero_abilities : FtList

pub record FtUpgradeLevel : Type 0 where
  pub gold : ℤ
  pub lumber : ℤ
  pub requires : FtList

pub record FtUpgrade : Type 0 where
  pub id : ℕ
  pub levels : ℕ
  pub levels_n : ℕ

pub record FtAbilityLevel : Type 0 where
  pub level : ℕ
  pub orders : ℕ
  pub orders_n : ℕ

pub record FtAbility : Type 0 where
  pub id : ℕ
  pub max_level : ℕ
  pub required_level : ℕ
  pub level_skip : ℕ
  pub levels : ℕ
  pub levels_n : ℕ

pub record FtOrder : Type 0 where
  pub order : ℕ
  pub cast : Bool

pub record FtTypeOrders : Type 0 where
  pub id : ℕ
  pub orders : FtList

-- The tables: FT_POOL, FT_GROUPS, FT_UNITS, FT_UPGRADE_LEVELS, FT_UPGRADE_INFO, FT_ABILITY_LEVELS,
-- FT_ORDERS, FT_ABILITY_INFO, FT_TYPE_ORDERS, FT_UNKNOWN_ORDERS and FT_ARGUMENTS.
pub record Reference : Type 0 where
  pub pool : ℕ → ℕ
  pub group : ℕ → FtList
  pub unit : ℕ → FtUnit
  pub units_n : ℕ
  pub upgrade_level : ℕ → FtUpgradeLevel
  pub upgrade : ℕ → FtUpgrade
  pub upgrades_n : ℕ
  pub ability_level : ℕ → FtAbilityLevel
  pub order : ℕ → FtOrder
  pub ability : ℕ → FtAbility
  pub abilities_n : ℕ
  pub type_orders : ℕ → FtTypeOrders
  pub type_orders_n : ℕ
  pub unknown_orders : List ℕ
  pub argument : ℕ → ℕ × ℕ
  pub arguments_n : ℕ

abbrev pub ft_structure : ℕ
ft_structure = 0

abbrev pub ft_hero : ℕ
ft_hero = 1

abbrev pub ft_acting : ℕ
ft_acting = 2

abbrev pub ft_worker : ℕ
ft_worker = 3

abbrev pub order_first : ℕ
order_first = 851970

abbrev pub order_count : ℕ
order_count = 830

-- `FT_POOL[list.offset + k]` for the last `left` places of a list.
pub items_from : Reference → FtList → ℕ → List ℕ
items_from r l zero = []
items_from r l (suc left) = r.pool (l.offset + (l.count - suc left)) ∷ items_from r l left

pub items : Reference → FtList → List ℕ
items r l = items_from r l l.count

-- FIND: `hi` is one past the source's, which starts at n - 1 and may go to -1. `fuel` bounds the
-- rounds.
module _ {A : Type 0} (table : ℕ → A) (id : A → ℕ) (key : ℕ) where
  pub find_in : ℕ → ℕ → ℕ → Option A
  find_in zero lo hi = none
  find_in (suc fuel) lo hi =
      let mid = (lo + (hi - 1)) / 2 in
      let right = find_in fuel (mid + 1) hi in
      let left = find_in fuel lo mid in
      if ltb lo hi
      then (if id (table mid) == key
          then some (table mid)
          else if ltb (id (table mid)) key
          then right
          else left)
      else none

  unfoldable pub find : ℕ → Option A
  unfolding find_in
  find n = find_in n 0 n

unfoldable pub unit_info : Reference → ℕ → Option FtUnit
unit_info r key = find r.unit (λ u. u.id) key r.units_n

unfoldable pub upgrade_info : Reference → ℕ → Option FtUpgrade
upgrade_info r key = find r.upgrade (λ u. u.id) key r.upgrades_n

unfoldable pub ability_info : Reference → ℕ → Option FtAbility
ability_info r key = find r.ability (λ a. a.id) key r.abilities_n

unfoldable pub type_orders : Reference → ℕ → Option FtTypeOrders
type_orders r key = find r.type_orders (λ t. t.id) key r.type_orders_n

abbrev pub leb_int : ℤ → ℤ → Bool
leb_int a b = leb (pos_part a + neg_part b) (pos_part b + neg_part a)

-- The doubles of C: what the masks compute with them.
pub record Doubles (Real : Type 0) : Type 0 where
  pub of_int : ℕ → Real
  pub tenth : Real
  pub nine_tenths : Real
  pub minus : Real → Real → Real
  pub over : Real → Real → Real
  pub above : Real → Real → Bool
  pub at_least : Real → Real → Bool

-- The fields that the masks read. `flags` has the bits below.
pub record BinUnit (Real : Type 0) : Type 0 where
  pub unit_id : ℕ
  pub type_id : ℕ
  pub flags : ℕ
  pub level : ℕ
  pub state : ℕ
  pub hp : Real
  pub max_hp : Real
  pub mana : Real

abbrev pub bu_own : ℕ
bu_own = 0

abbrev pub bu_structure : ℕ
bu_structure = 1

abbrev pub bu_hero : ℕ
bu_hero = 2

abbrev pub bu_inside : ℕ
bu_inside = 3

abbrev pub bu_illusion : ℕ
bu_illusion = 4

abbrev pub bu_dead : ℕ
bu_dead = 5

pub record BinAbility (Real : Type 0) : Type 0 where
  pub unit_id : ℕ
  pub ability_id : ℕ
  pub level : ℕ
  pub mana_cost : ℕ
  pub cooldown_remaining : Real

pub record Stock : Type 0 where
  pub gold : ℤ
  pub lumber : ℤ
  pub food_used : ℕ
  pub food_cap : ℕ

-- An observation: the header's stock and the tables, `queue` by its length, `inventory` as units and
-- item types, `heroes` as units and skill points, `research` as upgrades and levels.
pub record Obs (Real : Type 0) : Type 0 where
  pub h : Stock
  pub units : List (BinUnit Real)
  pub queue : ℕ
  pub inventory : List (ℕ × ℕ)
  pub heroes : List (ℕ × ℕ)
  pub abilities : List (BinAbility Real)
  pub research : List (ℕ × ℕ)

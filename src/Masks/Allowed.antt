-- ===== src/Masks/Allowed.antt =====
-- wc3hook/masks.c: the arguments that each type of action allows, as packed bits.
pub mod Bits
pub mod Each
pub mod Needs
pub mod Exact
use Prim.Native.Nat.{bit_or}
use wc3env.Prelude.{
  ℕ, ◌+◌, ◌-◌, ◌/◌, ◌%◌, ◌^◌, Bool, true, false, not, ◌&&◌, ◌||◌, Option, none, some, List, [], ◌∷◌,
  if◌then◌else◌, ltb, ◌==◌,
}
use wc3env.Prelude.Int.{ℤ, pos, ◌+ℤ◌}
use wc3env.Prelude.Words.{test_bit}
use wc3env.Features.{Map, lookup, map_get}
use wc3env.Features.Sets.{has, keys}
use wc3env.Masks.{
  Reference, FtList, FtUnit, FtUpgrade, FtUpgradeLevel, items, unit_info, upgrade_info, leb_int,
  ft_structure, ft_hero,
}
use wc3env.Masks.Own.{Own}

-- The sets as bytes, each from its most significant bit on.
pub record Allowed : Type 0 where
  pub bits : ℕ → ℕ
  pub any : Bool

abbrev pub no_bits : ℕ → ℕ
no_bits i = 0

abbrev pub nothing : Allowed
nothing = record { bits = no_bits; any = false }

-- `bits[k >> 3] |= 0x80 >> (k & 7)`.
unfoldable pub set_bit : (ℕ → ℕ) → ℕ → ℕ → ℕ
set_bit bits k i = if i == k / 8 then bit_or (bits i) (128 / 2 ^ (k % 8)) else bits i

-- `bits[k >> 3] >> (7 - (k & 7)) & 1`.
unfoldable pub bit_at : (ℕ → ℕ) → ℕ → Bool
bit_at bits k = test_bit (bits (k / 8)) (7 - k % 8)

module _ (r : Reference) where
  -- ARGUMENT: the positive ones count, so 0 stands for the source's -1 too.
  unfoldable pub argument_of : ℕ → ℕ
  argument_of raw = lookup r.argument r.arguments_n raw 0

  pub allow : Allowed → ℕ → Allowed
  allow a raw = record {
    any = true;
    bits = if ltb 0 (argument_of raw) then set_bit a.bits (argument_of raw) else a.bits;
  }

  abbrev pub allow_one : Option ℕ → Allowed → Allowed
  allow_one none a = a
  allow_one (some raw) a = allow a raw

  -- A loop whose body allows at most one argument of each key.
  pub allow_each : (ℕ → Option ℕ) → List ℕ → Allowed → Allowed
  allow_each body [] a = a
  allow_each body (k ∷ ks) a = allow_each body ks (allow_one (body k) a)

  pub allow_all : List ℕ → Allowed → Allowed
  allow_all [] a = a
  allow_all (k ∷ ks) a = allow_all ks (allow a k)

  -- All of `requires` are in the set.
  pub all_in : Map ℕ → List ℕ → Bool
  all_in m [] = true
  all_in m (k ∷ ks) = has m k && all_in m ks

  module _ {Real : Type 0} (w : Own Real) where
    pub affords : ℤ → ℤ → ℤ → Bool
    affords gold lumber food =
        leb_int gold (w.h.gold +ℤ pos 30)
        && leb_int lumber (w.h.lumber +ℤ pos 30)
        && (leb_int food (pos 0) || leb_int food w.food_free)

    pub requirements_met : FtList → Bool
    requirements_met l = all_in w.have_soon (items r l)

    -- The first hero is free.
    pub cost : FtUnit → ℤ → ℤ
    cost u price = if test_bit u.flags ft_hero && w.hero_count == 0 then pos 0 else price

    pub hero_ready : FtUnit → Bool
    hero_ready u =
        if ltb w.hero_count u.groups_n
        then requirements_met (r.group (u.groups + w.hero_count))
        else true

    pub can_train : FtUnit → Bool
    can_train u =
        not (test_bit u.flags ft_structure && not (test_bit u.flags ft_hero))
        && (not (test_bit u.flags ft_hero) || ltb w.hero_count 3 && hero_ready u)
        && affords (cost u u.gold) (cost u u.lumber) u.food
        && requirements_met u.requires

    pub train_body : ℕ → Option ℕ
    train_body key = elim (unit_info r key) [
      | none ↦ none
      | some u ↦ if can_train u then some u.id else none
    ]

    pub trainable : Allowed → Allowed
    trainable = allow_each train_body (keys w.makes)

    -- The level that comes after `level`, or the last.
    pub next_level : FtUpgrade → ℕ → FtUpgradeLevel
    next_level up level =
        r.upgrade_level
          (up.levels + (if ltb level (up.levels_n - 1) then level else up.levels_n - 1))

    pub level_in : Option ℕ → ℕ
    level_in none = 0
    level_in (some level) = level

    pub can_research : FtUpgrade → ℕ → Bool
    can_research up level =
        let next = next_level up level in
        ltb level up.levels_n
        && affords next.gold next.lumber (pos 0)
        && requirements_met next.requires

    pub can_build : FtUnit → Bool
    can_build u = affords u.gold u.lumber (pos 0) && requirements_met u.requires

    -- An upgrade, or the next tier of a town hall.
    pub research_body : ℕ → Option ℕ
    research_body code = elim (upgrade_info r code) [
      | some up ↦ if can_research up (level_in (map_get w.research code)) then some code else none
      | none ↦ elim (unit_info r code) [
        | none ↦ none
        | some u ↦ if test_bit u.flags ft_structure && can_build u then some code else none
      ]
    ]

    pub researchable : Allowed → Allowed
    researchable = allow_each research_body (keys w.makes)

    pub build_body : ℕ → Option ℕ
    build_body key = elim (unit_info r key) [
      | none ↦ none
      | some u ↦ if can_build u then some u.id else none
    ]

    pub buildable : Allowed → Allowed
    buildable = allow_each build_body (keys w.builds)

-- ===== src/Features/Memory.antt =====
-- wc3hook/features.c: what a policy remembers between observations (`update`). Times are the game's
-- milliseconds, which the source divides by 1000; counts of trees, small whole numbers that the source
-- keeps as floats, are ℕ. The arithmetic of C's floats and doubles is a parameter.
pub mod Entries
pub mod Recall
use wc3env.Prelude.{
  ℕ, zero, suc, ◌+◌, ◌-◌, ◌*◌, ◌/◌, ◌%◌, Bool, true, false, not, ◌&&◌, ◌||◌, Option, none, some,
  List, [], ◌∷◌, if◌then◌else◌, ltb, leb, ◌==◌, take,
}
use wc3env.Prelude.Int.{ℤ, pos, negsuc}
use wc3env.Prelude.Words.{test_bit}
use wc3env.Features.{Map, map_init, map_put, map_clear, Remembered, remember, forget}
use wc3env.Features.Sets.{has}

-- The arithmetic of a float type: `round` takes a double to it, `to_int` is the conversion to int,
-- `below` is `<`.
pub record Floats (Real : Type 0) : Type 0 where
  pub of_int : ℤ → Real
  pub half : Real
  pub round : Real → Real
  pub plus : Real → Real → Real
  pub minus : Real → Real → Real
  pub times : Real → Real → Real
  pub over : Real → Real → Real
  pub below : Real → Real → Bool
  pub to_int : Real → ℤ

-- The fields of a unit that are read here.
pub record BinUnit (Real : Type 0) : Type 0 where
  pub unit_id : ℕ
  pub owner : ℕ
  pub flags : ℕ
  pub x : Real
  pub y : Real
  pub hp : Real

pub record BinEvent : Type 0 where
  pub kind : ℕ
  pub unit_id : ℕ

pub record BinDestructable (Real : Type 0) : Type 0 where
  pub flags : ℕ
  pub x : Real
  pub y : Real

pub record Obs (Real : Type 0) : Type 0 where
  pub game_time_ms : ℕ
  pub units : List (BinUnit Real)
  pub events : List BinEvent
  pub destructables : List (BinDestructable Real)

pub record FeatDecision (Real : Type 0) : Type 0 where
  pub type : ℕ
  pub actor : ℕ
  pub target : ℕ
  pub point : Option (Real × Real)

-- `bounds` are min_x, min_y, max_x and max_y; `recent` is newest first, and `recent_n` its length.
pub record FeatState (Real : Type 0) : Type 0 where
  pub bounds : Real × Real × Real × Real
  pub trees : ℕ → ℕ
  pub remembered : List (Remembered (BinUnit Real))
  pub started : Map ℕ
  pub hp_before : Map Real
  pub hp_now : Map Real
  pub attacked : Map ℕ
  pub recent : List (FeatDecision Real)

abbrev pub creep_player : ℕ
creep_player = 12

abbrev pub feat_map : ℕ
feat_map = 128

-- Construction, upgrade, training and research.
abbrev pub is_start : ℕ → Bool
is_start kind = kind == 26 || kind == 29 || kind == 32 || kind == 35

module _ {Real : Type 0} where
  -- Structures of other players are remembered.
  unfoldable pub is_kept : BinUnit Real → Bool
  is_kept u = test_bit u.flags 1 && not (test_bit u.flags 0) && not (u.owner == creep_player)

  pub see_units :
      ℕ → List (BinUnit Real) → List (Remembered (BinUnit Real)) → List (Remembered (BinUnit Real))
  see_units now [] rs = rs
  see_units now (u ∷ us) rs =
      see_units now us (
        if is_kept u then remember (record { unit_id = u.unit_id; row = u; seen = now }) rs else rs)

  pub visible_in : List (BinUnit Real) → Map ℕ → Map ℕ
  visible_in [] m = m
  visible_in (u ∷ us) m = visible_in us (map_put u.unit_id 0 m)

  pub note_hp : List (BinUnit Real) → Map Real → Map Real
  note_hp [] m = m
  note_hp (u ∷ us) m = note_hp us (map_put u.unit_id u.hp m)

  pub take_event : ℕ → BinEvent → FeatState Real → FeatState Real
  take_event now e st =
      if is_start e.kind
      then record st { started = map_put e.unit_id now st.started }
      else if e.kind == 20
      then record st { remembered = forget e.unit_id st.remembered }
      else if e.kind == 18
      then record st { attacked = map_put e.unit_id 0 st.attacked }
      else st

  pub take_events : ℕ → List BinEvent → FeatState Real → FeatState Real
  take_events now [] st = st
  take_events now (e ∷ es) st = take_events now es (take_event now e st)

  pub square : Floats Real → Real → Real
  square f x = f.times x x

  -- SIGHT, a double.
  pub sight : Floats Real → Real
  sight d = d.of_int (pos 800)

  -- `single` is float and `d` double.
  module _ (single d : Floats Real) where
    pub in_sight : List (BinUnit Real) → BinUnit Real → Bool
    in_sight [] row = false
    in_sight (u ∷ us) row =
        test_bit u.flags 0
          && single.below
              (single.plus (square single (single.minus u.x row.x))
                (square single (single.minus u.y row.y)))
              (single.round (square d (sight d)))
        || in_sight us row

    -- In sight but not there: destroyed unseen.
    abbrev pub gone : List (BinUnit Real) → Map ℕ → BinUnit Real → Bool
    gone us visible row = not (has visible row.unit_id) && in_sight us row

    pub sweep :
        (BinUnit Real → Bool) → List (Remembered (BinUnit Real)) → List (Remembered (BinUnit Real))
    sweep test [] = []
    sweep test (r ∷ rs) = let rest = sweep test rs in if test r.row then rest else r ∷ rest

    -- `c < 0 ? 0 : c > FEAT_MAP - 1 ? FEAT_MAP - 1 : c`.
    pub clamp : ℤ → ℕ
    clamp (negsuc n) = 0
    clamp (pos n) = if ltb (feat_map - 1) n then feat_map - 1 else n

    -- `cell_f32`.
    pub cell : Real × Real × Real × Real → Real → Real → ℕ
    cell b x y =
        let fx =
          single.times
            (single.over (single.minus x (single.round b.0)) (single.round (d.minus b.2 b.0)))
            (single.of_int (pos feat_map)) in
        let fy =
          single.times
            (single.over (single.minus y (single.round b.1)) (single.round (d.minus b.3 b.1)))
            (single.of_int (pos feat_map)) in
        clamp (single.to_int fy) * feat_map + clamp (single.to_int fx)

    -- The cell `at` on an axis from `low` on is among those that the loop goes through, and how far the
    -- middle of it is.
    abbrev pub from_int : ℤ → ℕ
    from_int (pos n) = n
    from_int (negsuc n) = 0

    abbrev pub above_int : ℤ → ℕ → Bool
    above_int (pos n) at = leb at n
    above_int (negsuc n) at = false

    pub ranges : Real → Real → Real → ℕ → Bool
    ranges x low size at =
        leb (from_int (d.to_int (d.over (d.minus (d.minus x (sight d)) low) size))) at
        && above_int (d.to_int (d.over (d.minus (d.plus x (sight d)) low) size)) at
        && ltb at feat_map

    pub middle : Real → Real → ℕ → Real
    middle low size at = d.plus low (d.times (d.plus (d.of_int (pos at)) d.half) size)

    pub sees_cell : Real × Real × Real × Real → BinUnit Real → ℕ → Bool
    sees_cell b u c =
        let w = d.over (d.minus b.2 b.0) (d.of_int (pos feat_map)) in
        let hgt = d.over (d.minus b.3 b.1) (d.of_int (pos feat_map)) in
        test_bit u.flags 0
        && ranges u.y b.1 hgt (c / feat_map)
        && ranges u.x b.0 w (c % feat_map)
        && d.below
            (d.plus (square d (d.minus (middle b.1 hgt (c / feat_map)) u.y))
              (square d (d.minus (middle b.0 w (c % feat_map)) u.x)))
            (square d (sight d))

    pub seen_cell : Real × Real × Real × Real → List (BinUnit Real) → ℕ → Bool
    seen_cell b [] c = false
    seen_cell b (u ∷ us) c = sees_cell b u c || seen_cell b us c

    pub trees_at : Real × Real × Real × Real → List (BinDestructable Real) → ℕ → ℕ
    trees_at b [] c = 0
    trees_at b (tree ∷ ds) c =
        (if test_bit tree.flags 0 && cell b tree.x tree.y == c then 1 else 0) + trees_at b ds c

    pub note_decision :
        Option (FeatDecision Real) → List (FeatDecision Real) → List (FeatDecision Real)
    note_decision none recent = recent
    note_decision (some last) recent = take 4 (last ∷ recent)

    pub update : Obs Real → Option (FeatDecision Real) → FeatState Real → FeatState Real
    update o last st =
        let visible = visible_in o.units (map_init 1024) in
        let told = take_events o.game_time_ms o.events (record st {
          remembered = see_units o.game_time_ms o.units st.remembered;
          attacked = map_clear st.attacked;
        }) in
        record told {
          remembered = sweep (gone o.units visible) told.remembered;
          trees = λ c.
              if seen_cell st.bounds o.units c
              then trees_at st.bounds o.destructables c
              else st.trees c;
          recent = note_decision last st.recent;
          hp_before = st.hp_now;
          hp_now = note_hp o.units (map_clear st.hp_before);
        }

-- ===== src/Features/Tests.antt =====
-- Concrete tables, blocks and observations: the theorems on them.
use wc3env.Prelude.{ℕ, ◌*◌, ◌+◌, ◌-◌, ◌/◌, ◌≤◌, ◌<◌, ◌≡◌, none, [], ◌∷◌, ltb, length, arith, refl}
use wc3env.Prelude.Int.{ℤ, pos, negsuc}
use wc3env.Features.{Map, map_init, map_put}
use wc3env.Features.Growth.{IsTable, init-IsTable, IsUpdate, is_update, map_put-IsUpdate}
use wc3env.Features.Block.{Memory, FeatOut, memcpy, feat_write}
use wc3env.Features.Block.Written.{block, IsFilled, feat_write-IsBlock}
use wc3env.Features.Memory.{Floats, BinUnit, Obs, FeatState, update}
use wc3env.Features.Memory.Entries.{find, IsUnique}
use wc3env.Features.Memory.Recall.{recalled, update-recalls}

-- Keys that collide in two places, so that the map grows.
abbrev one_key : Map ℕ
one_key = map_put 7 100 (map_init 2)

one_key-IsTable : IsTable one_key
one_key-IsTable = table_of (map_put-IsUpdate (map_init 2) 7 100 (init-IsTable 2 (omega arith)))
  where
    table_of : IsUpdate (map_init 2) 7 100 one_key → IsTable one_key
    table_of (is_update t same other) = t

map_put-IsUpdate_example : IsUpdate one_key 9 200 (map_put 9 200 one_key)
map_put-IsUpdate_example = map_put-IsUpdate one_key 9 200 one_key-IsTable

-- A block with three rows and two actors, whose arrays count their bytes.
abbrev counting : Memory
counting i = i

abbrev three_rows : FeatOut
three_rows = record {
  count = 3;
  scalar_count = 5;
  argument_n = 1;
  actor_n = 2;
  previous_type = counting;
  recent = counting;
  type_mask = counting;
  units = counting;
  type = counting;
  owner = counting;
  order = counting;
  queue = counting;
  inventory = counting;
  buffs = counting;
  abilities = counting;
  unit_id = counting;
  cell = counting;
  trees = counting;
  scalars = counting;
  argument_types = counting;
  argument_bits = λ k. counting;
  actor_keys = counting;
  actor_rows = counting;
}

three_rows-IsFilled : IsFilled three_rows
three_rows-IsFilled = omega arith

feat_write-IsBlock_example :
    (length (block three_rows) ≤ 65536
      → feat_write three_rows 65536 counting
        ≡ (memcpy 0 (block three_rows) counting, length (block three_rows)))
    × (65536 < length (block three_rows) → feat_write three_rows 65536 counting ≡ (counting, 0))
feat_write-IsBlock_example = feat_write-IsBlock three_rows three_rows-IsFilled 65536 counting

-- Whole numbers in place of floats.
abbrev int_part : ℤ → ℕ
int_part (pos n) = n
int_part (negsuc n) = 0

abbrev whole : Floats ℕ
whole = record {
  of_int = int_part;
  half = 0;
  round = λ a. a;
  plus = λ a b. a + b;
  minus = λ a b. a - b;
  times = λ a b. a * b;
  over = λ a b. a / b;
  below = ltb;
  to_int = pos;
}

abbrev a_unit : ℕ → ℕ → ℕ → ℕ → BinUnit ℕ
a_unit id owner flags x = record {
  unit_id = id;
  owner = owner;
  flags = flags;
  x = x;
  y = 0;
  hp = 100;
}

-- One structure is remembered near by, one far off.
abbrev before : FeatState ℕ
before = record {
  bounds = (0, 0, 12800, 12800);
  trees = λ c. 0;
  remembered =
      record { unit_id = 7; row = a_unit 7 1 2 100; seen = 1000 }
      ∷ record { unit_id = 8; row = a_unit 8 1 2 9000; seen = 1000 }
      ∷ [];
  started = map_init 256;
  hp_before = map_init 512;
  hp_now = map_init 512;
  attacked = map_init 64;
  recent = [];
}

before-IsUnique : IsUnique before.remembered
unfolding find
before-IsUnique = (refl, (refl, tt))

-- An own unit, and a structure of another player.
abbrev observed : Obs ℕ
observed = record {
  game_time_ms = 5000;
  units = a_unit 1 0 1 0 ∷ a_unit 9 1 2 500 ∷ [];
  events = record { kind = 18; unit_id = 1 } ∷ [];
  destructables = [];
}

update-recalls_example :
    IsUnique (update whole whole observed none before).remembered
    × ((id : ℕ)
        → find id (update whole whole observed none before).remembered
          ≡ recalled whole whole observed before.remembered id)
    × ((update whole whole observed none before).hp_before ≡ before.hp_now)
update-recalls_example = update-recalls whole whole observed none before before-IsUnique

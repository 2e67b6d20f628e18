-- ===== src/Act/Tests.antt =====
-- A small game: the theorems on orders at inputs, and a run of the encoding.
use wc3env.Prelude.{
  ◌≤◌, ◌<◌, ◌≡◌, inl, refl, true, false, none, some, [], ◌∷◌, length, arith, All, ◌==◌,
  if◌then◌else◌,
}
use wc3env.Act.{ActQueue, Bytes}
use wc3env.Act.Encode.{Object}
use wc3env.Act.Flush.{act_flush, IsFlush, act_flush-IsFlush}
use wc3env.Act.Game.{ActItem, Game, Encoder, move, ok, nowhere}
use wc3env.Act.Apply.{act_apply}
use wc3env.Act.Apply.Decided.{IsSafe, IsGame}
use wc3env.Act.Apply.Safety.{AreDone, act_apply-AreDone}

abbrev peon : Object
peon = record { id_a = 21; id_b = 22; type_id = 7 }

-- A game with one unit, the object 5, of player 0.
abbrev game : Game
game = record {
  unit_by_rpc_id = λ id. if id == 5 then some peon else none;
  find_widget = λ id. none;
  unit_owner = λ u. some 0;
  object_visible = λ o class p. false;
  unit_x = λ u. 0;
  unit_y = λ u. 0;
  unit_item_in_slot = λ u slot. none;
  placement_pending = λ p. [];
  placement_find = λ u type x y sites freed. nowhere;
  order_names = [];
  game_time = 0;
  realloc = λ capacity. true;
}

abbrev walk : ActItem
walk = record {
  unit_id = 5;
  command = move;
  has_xy = true;
  x = 0x3f80_0000;
  y = 0;
  target = 0;
  type_id = [];
  order = [];
  slot = none;
  shop = 0;
  item_type = [];
  reason = ok;
  queued = false;
  auto_place = false;
}

abbrev start : Encoder
start = record {
  queue = record { records = []; capacity = 0 };
  previous = (0, 0);
  queued = [];
  pending = none;
}

start-IsSafe : IsSafe start
start-IsSafe = record {
  queue = record { room = inl refl; within = omega arith; sized = omega arith };
  fit = tt;
  queued = omega arith;
  pending = tt;
}

game-IsGame : IsGame game
game-IsGame = record { few = λ p. omega arith }

act_apply-AreDone_example : AreDone 2 (act_apply game 0 (walk ∷ walk ∷ []) start)
act_apply-AreDone_example =
    act_apply-AreDone game 0 game-IsGame (walk ∷ walk ∷ []) start start-IsSafe

abbrev two_records : ActQueue
two_records = record { records = (1 ∷ 2 ∷ []) ∷ (3 ∷ []) ∷ []; capacity = 10 }

two_records-All : All (λ (r : Bytes). (0 < length r) × (length r ≤ 48)) two_records.records
two_records-All = ((omega arith, omega arith), ((omega arith, omega arith), tt))

act_flush-IsFlush_example :
    IsFlush two_records.records (act_flush two_records).0
    × ((act_flush two_records).1.records ≡ [])
    × ((act_flush two_records).1.capacity ≡ 10)
act_flush-IsFlush_example = act_flush-IsFlush two_records two_records-All

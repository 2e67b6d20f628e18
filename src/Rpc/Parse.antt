-- ===== src/Rpc/Parse.antt =====
-- wc3hook/rpc.c, act_parse: an agent's batch of actions.
pub mod Sound
use wc3env.Prelude.{
  ℕ, zero, suc, ◌+◌, ◌-◌, ◌^◌, Bool, true, false, Option, none, some, List, [], ◌∷◌, ◌&&◌, ◌||◌,
  not, ◌==◌, if◌then◌else◌, ltb, leb, length,
}
use wc3env.Prelude.Int.{ℤ, pos, negsuc}
use wc3env.Json.{Bytes, codes, jr_str, decimal}
use wc3env.Rpc.{Yyjson, same_text, get, given, is_object, items, int, num, str, or_empty}
use wc3env.Act.Game.{Reason, ok, unknown_command, bad_args}

-- `ActItem` as the request gives it; `point` is `has_xy`, `x` and `y`, and a slot of -1 is none.
pub record Parsed (Num : Type 0) : Type 0 where
  pub unit_id : ℤ
  pub command : Bytes
  pub point : Option (Num × Num)
  pub target : ℤ
  pub shop : ℤ
  pub slot : Option ℕ
  pub type_id : Bytes
  pub item_type : Bytes
  pub order : Bytes
  pub queued : Bool
  pub auto_place : Bool
  pub reason : Reason

-- What becomes of a batch: its actions, or the place of the malformed one.
pub data Batch (Num : Type 0) : Type 0 where
  parsed : List (Parsed Num) → Batch Num
  malformed : ℕ → Batch Num
  no_memory : Batch Num

pub known : List Bytes
known =
    codes "move"
    ∷ codes "stop"
    ∷ codes "attack"
    ∷ codes "smart"
    ∷ codes "harvest"
    ∷ codes "build"
    ∷ codes "train"
    ∷ codes "research"
    ∷ codes "learn"
    ∷ codes "cast"
    ∷ codes "use_item"
    ∷ codes "drop_item"
    ∷ codes "select"
    ∷ codes "buy"
    ∷ codes "revive"
    ∷ []

-- The commands that are not queued.
pub immediate : List Bytes
immediate =
    codes "train"
    ∷ codes "research"
    ∷ codes "learn"
    ∷ codes "select"
    ∷ codes "buy"
    ∷ codes "revive"
    ∷ codes "drop_item"
    ∷ []

pub one_of : List Bytes → Bytes → Bool
one_of [] s = false
one_of (t ∷ ts) s = same_text s t || one_of ts s

pub int_or_zero : Option ℤ → ℤ
int_or_zero none = pos 0
int_or_zero (some t) = t

pub any_of : List Bool → Bool
any_of [] = false
any_of (b ∷ bs) = b || any_of bs

-- An object's id: 1 to 0xffffffff.
pub is_id : Option ℤ → Bool
is_id none = false
is_id (some (pos t)) = ltb 0 t && ltb t (2 ^ 32)
is_id (some (negsuc t)) = false

pub slot_in : Option ℤ → Option ℕ
slot_in none = none
slot_in (some (pos n)) = if leb n 5 then some n else none
slot_in (some (negsuc n)) = none

abbrev is_none : Option ℕ → Bool
is_none none = true
is_none (some n) = false

-- An order by its id becomes the text of the id.
pub order_text : Option ℤ → Option Bytes → Bytes
order_text none text = or_empty text
order_text (some t) text = decimal t

pub both : {Num : Type 0} → Option Num → Option Num → Option (Num × Num)
both (some x) (some y) = some (x, y)
both (some x) none = none
both none y = none

-- A text of a type: four characters.
pub is_type : Option Bytes → Bool
is_type none = false
is_type (some s) = length s == 4

pub is_text : Option Bytes → Bool
is_text none = false
is_text (some s) = true

abbrev has_int : Option ℤ → Bool
has_int none = false
has_int (some t) = true

-- `far`: whether a coordinate is beyond 1,000,000 either way.
module _ {Val Num : Type 0} (y : Yyjson Val Num) (far : Num → Bool) where
  pub far_point : Option (Num × Num) → Bool
  far_point none = false
  far_point (some (px, py)) = far px || far py

  pub point_of : Option Val → Option (Num × Num)
  point_of args = both (num y (get y args (codes "x"))) (num y (get y args (codes "y")))

  abbrev has_point : Option (Num × Num) → Bool
  has_point none = false
  has_point (some p) = true

  -- A member that is there and is no such value.
  pub bad_flag : Option Val → Bool
  bad_flag none = false
  bad_flag (some v) = not (y.is_bool v)

  pub flag : Option Val → Bool
  flag none = false
  flag (some v) = y.get_bool v

  pub bad_id : Option Val → Bool
  bad_id v = given y v && not (is_id (int y v))

  pub bad_type : Option Val → Bool
  bad_type v = given y v && not (is_type (str y v 32))

  pub bad_order : Option Val → Bool
  bad_order v = given y v && not (has_int (int y v)) && not (is_text (str y v 32))

  pub bad_slot : Option Val → Bool
  bad_slot v = given y v && is_none (slot_in (int y v))

  pub bad_point : Option Val → Bool
  bad_point args =
      let p = point_of args in
      far_point p
      || (not (has_point p)
          && (given y (get y args (codes "x")) || given y (get y args (codes "y"))))

  -- The arguments that no command takes.
  pub arguments : Bytes → Option Val → List Bool
  arguments command args =
      bad_flag (get y args (codes "queued"))
      ∷ bad_flag (get y args (codes "auto_place"))
      ∷ (given y (get y args (codes "auto_place")) && not (same_text command (codes "build")))
      ∷ bad_point args
      ∷ bad_id (get y args (codes "target_id"))
      ∷ bad_id (get y args (codes "shop_id"))
      ∷ bad_slot (get y args (codes "slot"))
      ∷ bad_type (get y args (codes "type_id"))
      ∷ bad_type (get y args (codes "item_type_id"))
      ∷ bad_type (get y args (codes "ability_id"))
      ∷ bad_order (get y args (codes "order"))
      ∷ (flag (get y args (codes "queued")) && one_of immediate command)
      ∷ []

  pub bad_arguments : Bytes → Option Val → Bool
  bad_arguments command args = any_of (arguments command args)

  pub parse_args : ℤ → Bytes → Option Val → Parsed Num
  parse_args unit_id command args = record {
    unit_id = unit_id;
    command = command;
    point = point_of args;
    target = int_or_zero (int y (get y args (codes "target_id")));
    shop = int_or_zero (int y (get y args (codes "shop_id")));
    slot = slot_in (int y (get y args (codes "slot")));
    type_id = or_empty (
        str y
          (get y args
            (if same_text command (codes "learn") then codes "ability_id" else codes "type_id"))
          8);
    item_type = or_empty (str y (get y args (codes "item_type_id")) 8);
    order = order_text (int y (get y args (codes "order"))) (str y (get y args (codes "order")) 32);
    queued = flag (get y args (codes "queued"));
    auto_place = flag (get y args (codes "auto_place"));
    reason =
        if not (one_of known command)
        then unknown_command
        else if bad_arguments command args
        then bad_args
        else ok;
  }

  abbrev pub item_of : Option ℤ → Option Bytes → Bool → Option Val → Option (Parsed Num)
  item_of none command good args = none
  item_of (some unit_id) none good args = none
  item_of (some unit_id) (some command) good args =
      if good then some (parse_args unit_id command args) else none

  -- An action is an object with a unit's id and a command's name, and its arguments, if it has any, are
  -- an object.
  pub parse_item : Val → Option (Parsed Num)
  parse_item a =
      let args = get y (some a) (codes "arguments") in
      item_of (int y (get y (some a) (codes "unit_id")))
        (str y (get y (some a) (codes "command")) 16)
        (y.is_obj a && (not (given y args) || is_object y args)) args

  abbrev pub and_item : Parsed Num → Batch Num → Batch Num
  and_item i (parsed is) = parsed (i ∷ is)
  and_item i (malformed k) = malformed k
  and_item i no_memory = no_memory

  pub parse_from : ℕ → List Val → Batch Num
  parse_from k [] = parsed []
  parse_from k (a ∷ rest) = elim (parse_item a) [
    | none ↦ malformed k
    | some i ↦ and_item i (parse_from (suc k) rest)
  ]

  -- `allocated`: whether there is memory for the actions.
  pub act_parse : Bool → Option Val → Batch Num
  act_parse allocated actions =
      let batch = parse_from 0 (items y actions) in
      if not (length (items y actions) == 0) && not allocated then no_memory else batch

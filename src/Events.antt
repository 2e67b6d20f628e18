-- ===== src/Events.antt =====
-- wc3hook/events.c: the logs of game events and of unit orders, one ring for each player. What the
-- code reads of the game's objects is an argument.
mod Rings
mod Records
mod Gather
mod Kinds
pub mod Origin
mod Tests
use wc3env.Prelude.{
  ℕ, zero, suc, ◌+◌, ◌-◌, ◌%◌, ◌^◌, Bool, true, false, not, ◌&&◌, ◌||◌, Option, none, some, List,
  [], ◌∷◌, if◌then◌else◌, ltb, ◌==◌,
}
use wc3env.Prelude.Words.{add32, sub32, test_bit}

-- A ring of `cap` cells with its counts, which wrap at 2 ^ 32: `head` of the entries ever logged,
-- `cursor` of those given.
pub record Ring (A : Type 0) : Type 0 where
  pub cells : ℕ → A
  pub head : ℕ
  pub cursor : ℕ

module _ {A : Type 0} (cap : ℕ) where
  pub push : A → Ring A → Ring A
  push a r = record r {
    cells = λ i. if i == r.head % cap then a else r.cells i;
    head = add32 r.head 1;
  }

  -- `for (k = from; k != head; k++)`; `none` is fuel that has run out.
  pub collect : ℕ → (ℕ → A) → ℕ → ℕ → Option (List A)
  collect zero cells k head = if k == head then some [] else none
  collect (suc fuel) cells k head =
      if k == head then some [] else elim (collect fuel cells (add32 k 1) head) [
        | none ↦ none
        | some rest ↦ some (cells (k % cap) ∷ rest)
      ]

  pub lost_count : Ring A → ℕ
  lost_count r = let n = sub32 r.head r.cursor in if ltb cap n then n - cap else 0

  pub first : Ring A → ℕ
  first r = if ltb 0 (lost_count r) then sub32 r.head cap else r.cursor

  -- The entries not yet given, oldest first, and the number lost.
  pub gather : Ring A → Option (List A) × ℕ × Ring A
  gather r = (collect cap r.cells (first r) r.head, lost_count r, record r { cursor = r.head })

pub record Event : Type 0 where
  pub id : ℕ
  pub owner : Option ℕ
  pub unit_id : ℕ
  pub other_id : ℕ
  pub item_id : ℕ
  pub seen : ℕ → Bool
  pub other_seen : ℕ → Bool
  pub item_seen : ℕ → Bool
  pub type : ℕ
  pub other_type : ℕ
  pub item_type : ℕ
  pub argument : ℕ

pub record BinOrder : Type 0 where
  pub unit_id : ℕ
  pub order : ℕ
  pub kind : ℕ
  pub target_id : ℕ
  pub x : ℕ
  pub y : ℕ
  pub item_type : ℕ
  pub origin : ℕ
  pub queued : ℕ
  pub time_ms : ℕ

-- What the game's objects show: units, items and destructables by class.
pub record World (Object : Type 0) : Type 0 where
  pub owner_id : Object → Option ℕ
  pub obs_id : Object → ℕ
  pub type_id : Object → ℕ
  pub object_visible : Object → ℕ → ℕ → Bool
  pub order_of : Object → ℕ
  pub order_x : Object → ℕ
  pub order_y : Object → ℕ
  pub order_target : Object → ℕ
  pub order_item : Object → Option (Option Object)
  pub game_time : ℕ

abbrev pub unit_class : ℕ
unit_class = 0x2b77_3375

abbrev pub item_class : ℕ
item_class = 0x6974_656d

abbrev pub ev_cap : ℕ
ev_cap = 1024

abbrev pub ord_cap : ℕ
ord_cap = 2048

-- `g_players`, and the rings of each player.
pub record Logs : Type 0 where
  pub players : ℕ
  pub ev : ℕ → Ring Event
  pub ord : ℕ → Ring BinOrder

pub events_set_players : ℕ → Logs → Logs
events_set_players mask l = record l {
  players = mask;
  ev = λ p. record (l.ev p) { head = 0; cursor = 0 };
  ord = λ p. record (l.ord p) { head = 0; cursor = 0 };
}

abbrev pub is_owner : ℕ → Option ℕ → Bool
is_owner p none = false
is_owner p (some q) = p == q

module _ {Object : Type 0} (w : World Object) where
  -- The mask, as the test of its bits.
  pub seen_by : ℕ → Object → ℕ → Option ℕ → ℕ → Bool
  seen_by players object cls owner p =
      ltb p 16 && test_bit players p && (is_owner p owner || w.object_visible object cls p)

  -- The event that `ev_record` builds.
  pub built : ℕ → ℕ → Object → Option Object → Option Object → ℕ → Event
  built players id unit other item argument = record {
    id = id;
    owner = w.owner_id unit;
    unit_id = w.obs_id unit;
    other_id = elim other [ none ↦ 0 | some o ↦ w.obs_id o ];
    item_id = elim item [ none ↦ 0 | some i ↦ w.obs_id i ];
    seen = seen_by players unit unit_class (w.owner_id unit);
    other_seen =
        λ p. elim other [ none ↦ false | some o ↦ seen_by players o unit_class (w.owner_id o) p ];
    item_seen =
        λ p. elim item [ none ↦ false | some i ↦ seen_by players i item_class (w.owner_id unit) p ];
    type = w.type_id unit;
    other_type = elim other [ none ↦ 0 | some o ↦ w.type_id o ];
    item_type = elim item [ none ↦ 0 | some i ↦ w.type_id i ];
    argument = argument;
  }

  pub ev_record : ℕ → Option Object → Option Object → Option Object → ℕ → Logs → Logs
  ev_record id none other item argument l = l
  ev_record id (some unit) other item argument l =
      if l.players == 0
      then l
      else let e = built l.players id unit other item argument in
        record l { ev = λ p. if e.seen p then push ev_cap e (l.ev p) else l.ev p }

  -- An order to a unit; `kind` 0 is immediate, 1 at a point, 2 at a target.
  pub order_entry : Object → Object → ℕ → ℕ → ℕ → BinOrder
  order_entry unit order kind origin queued = record {
    unit_id = w.obs_id unit;
    order = w.order_of order;
    kind = kind;
    target_id = if kind == 2 then w.order_target order else 0xffff_ffff;
    x = if kind == 0 then 0 else w.order_x order;
    y = if kind == 0 then 0 else w.order_y order;
    item_type = elim (w.order_item order) [
      | none ↦ 0
      | some found ↦ elim found [ none ↦ 0 | some item ↦ w.type_id item ]
    ];
    origin = origin;
    queued = queued;
    time_ms = w.game_time;
  }

  pub order_record : Option Object → Option Object → ℕ → ℕ → ℕ → Logs → Logs
  order_record none order kind origin queued l = l
  order_record (some unit) none kind origin queued l = l
  order_record (some unit) (some order) kind origin queued l = elim (w.owner_id unit) [
    | none ↦ l
    | some owner ↦
        if ltb owner 16 && test_bit l.players owner
        then record l {
          ord = λ p.
              if p == owner
              then push ord_cap (order_entry unit order kind origin queued) (l.ord p)
              else l.ord p;
        }
        else l
  ]

  -- An order that the game issues, by the origin that the stack shows: 1 is a player's command, which
  -- is recorded where it is given.
  pub issued_record : Option Object → Option Object → ℕ → ℕ → Logs → Logs
  issued_record unit order kind origin l =
      if origin == 1 then l else order_record unit order kind origin 0 l

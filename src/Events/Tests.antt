-- ===== src/Events/Tests.antt =====
-- A small world: the theorems on events at inputs.
use wc3env.Prelude.{
  ℕ, ◌+◌, ◌-◌, ◌≡◌, ◌≢◌, refl, inl, false, List, [], ◌∷◌, ◌++◌, arith, some, none, length, drop,
  ◌==◌, ltb, if◌then◌else◌,
}
use wc3env.Events.{Ring, Event, World, Logs, ev_cap}
use wc3env.Events.Rings.{IsLog}
use wc3env.Events.Records.{event_record, IsAlike, event_record-hidden}
use wc3env.Events.Gather.{
  ev_cap-IsCapacity, Call, fire_all, seen, records, events_gather, events_gather-seen,
}
use wc3env.Events.Origin.{order_origin, order_origin-total}

-- Objects by number: those below 10 are player 0's, the others player 1's, and nobody sees through
-- the fog.
abbrev world : World ℕ
world = record {
  owner_id = λ o. if ltb o 10 then some 0 else some 1;
  obs_id = λ o. 100 + o;
  type_id = λ o. 7;
  object_visible = λ o cls p. false;
  order_of = λ o. 0;
  order_x = λ o. 0;
  order_y = λ o. 0;
  order_target = λ o. 0;
  order_item = λ o. none;
  game_time = 0;
}

abbrev blank : Event
blank = record {
  id = 18;
  owner = some 0;
  unit_id = 103;
  other_id = 111;
  item_id = 0;
  seen = λ p. p == 0;
  other_seen = λ p. p == 1;
  item_seen = λ p. false;
  type = 7;
  other_type = 7;
  item_type = 0;
  argument = 0;
}

abbrev empty : Ring Event
empty = record { cells = λ i. blank; head = 0; cursor = 0 }

empty-IsLog : IsLog ev_cap ev_cap-IsCapacity empty []
empty-IsLog = record { given = 0; cursor = refl; head = refl; kept = tt; few = omega arith }

-- Its attacker, whom player 0 does not see, is another one.
abbrev other_attacker : Event
other_attacker = record blank { other_id = 112 }

other_attacker-IsAlike : IsAlike 0 blank other_attacker
other_attacker-IsAlike = record {
  id = refl;
  owner = refl;
  unit_id = refl;
  type = refl;
  argument = refl;
  other_seen = refl;
  item_seen = refl;
  other = inl refl;
  item = inl refl;
}

event_record-hidden_example : event_record blank 0 ≡ event_record other_attacker 0
event_record-hidden_example = event_record-hidden 0 blank other_attacker other_attacker-IsAlike

abbrev logs : Logs
logs = record {
  players = 3;
  ev = λ p. empty;
  ord = λ p. record {
    cells = λ i. record {
      unit_id = 0;
      order = 0;
      kind = 0;
      target_id = 0;
      x = 0;
      y = 0;
      item_type = 0;
      origin = 0;
      queued = 0;
      time_ms = 0;
    };
    head = 0;
    cursor = 0;
  };
}

-- A unit of player 0 and one of player 1 die.
abbrev deaths : List (Call ℕ)
deaths =
    record { world = world; id = 20; unit = 4; other = none; item = none; argument = 0 }
    ∷ record { world = world; id = 20; unit = 12; other = none; item = none; argument = 0 }
    ∷ []

events_gather-seen_example :
    let ys = [] ++ seen 3 0 deaths in
    ((events_gather 0 (fire_all deaths logs)).0 ≡ some (records 0 (drop (length ys - ev_cap) ys)))
    × ((events_gather 0 (fire_all deaths logs)).1 ≡ length ys - ev_cap)
    × IsLog ev_cap ev_cap-IsCapacity ((events_gather 0 (fire_all deaths logs)).2.ev 0) []
events_gather-seen_example = events_gather-seen deaths logs 0 [] empty-IsLog (omega arith)

-- A frame that points to itself.
abbrev stuck : ℕ → ℕ × ℕ
stuck fp = (fp, 0)

order_origin-total_example : order_origin 1000 stuck 0 900 16 ≢ none
order_origin-total_example = order_origin-total 1000 stuck 0 900 16 (omega arith) (omega arith)

-- ===== src/Players.antt =====
-- wc3hook/players.c: the slots that agents play, and the identities under which their orders are sent.
-- Masks are the tests of their bits; the game's player table and its registration are arguments.
pub mod Fresh
pub mod Tests
use wc3env.Prelude.{
  ℕ, zero, suc, ◌+◌, ◌-◌, Bool, true, false, not, ◌&&◌, ◌||◌, Option, none, some, List, [], ◌∷◌,
  ◌++◌, if◌then◌else◌, ltb, ◌==◌, length, ◌≡◌, arith,
}

-- An entry of the game's table: its wire id and its slot.
pub record Entry : Type 0 where
  pub wire : ℕ
  pub slot : ℕ

pub record Players : Type 0 where
  pub launch_agents : ℕ → Bool
  pub keep_ai : ℕ → Bool
  pub agents : ℕ → Bool
  pub disabled_ai : ℕ → Bool
  pub registered : ℕ → Bool
  pub wire : ℕ → ℕ

abbrev pub with : {A : Type 0} → (ℕ → A) → ℕ → A → ℕ → A
with f i v j = if i == j then v else f j

-- Whether the startup AI of slot `p` is suppressed.
pub claim_agent : Option ℕ → Players → Bool × Players
claim_agent none s = (false, s)
claim_agent (some p) s =
    if not (ltb p 16) || not (s.launch_agents p)
    then (false, s)
    else (not (s.keep_ai p), record s { disabled_ai = with s.disabled_ai p true })

-- Whether the native StartMeleeAI is called (after the difficulty is applied).
pub start_melee_ai : Option ℕ → Players → Bool × Players
start_melee_ai p s = let claimed = claim_agent p s in (not claimed.0, claimed.1)

pub player_is_agent : Players → ℕ → Bool
player_is_agent s p = s.agents p

pub player_wire_id : Players → ℕ → ℕ
player_wire_id s p = s.wire p

pub player_prepared_agent : Players → ℕ → Bool
player_prepared_agent s p = s.disabled_ai p

pub players_clear : Players → Players
players_clear s = record s {
  agents = λ p. false;
  disabled_ai = λ p. false;
  registered = λ p. false;
  wire = λ p. 0;
}

abbrev pub Table : Type 0
Table = List (List (Option Entry))

abbrev in_group : ℕ → List (Option Entry) → Bool
in_group id [] = false
in_group id (none ∷ es) = in_group id es
in_group id (some e ∷ es) = e.wire == id || in_group id es

abbrev pub used_in : Table → ℕ → Bool
used_in [] id = false
used_in (g ∷ gs) id = in_group id g || used_in gs id

abbrev pub slots : List ℕ
slots = 0 ∷ 1 ∷ 2 ∷ 3 ∷ 4 ∷ 5 ∷ 6 ∷ 7 ∷ 8 ∷ 9 ∷ 10 ∷ 11 ∷ 12 ∷ 13 ∷ 14 ∷ 15 ∷ []

-- The ids that are unregistered, for slots that were registered here and are still in the table.
pub unregistered : Table → Players → List ℕ → List ℕ
unregistered t s [] = []
unregistered t s (p ∷ ps) =
    let rest = unregistered t s ps in
    if s.registered p && used_in t (s.wire p) then s.wire p ∷ rest else rest

pub players_unregister : Table → Players → List ℕ × Players
players_unregister t s = (unregistered t s slots, record s { registered = λ p. false })

-- The slots found in the table, each with the last entry's id.
scan_group : List (Option Entry) → (ℕ → Option ℕ) → ℕ → Option ℕ
scan_group [] found = found
scan_group (none ∷ es) found = scan_group es found
scan_group (some e ∷ es) found =
    scan_group es (if ltb e.slot 16 then with found e.slot (some e.wire) else found)

scan : Table → (ℕ → Option ℕ) → ℕ → Option ℕ
scan [] found = found
scan (g ∷ gs) found = scan gs (scan_group g found)

abbrev too_long : Table → Bool
too_long [] = false
too_long (g ∷ gs) = ltb 24 (length g) || too_long gs

-- `count` ids from `id` on.
abbrev from : ℕ → ℕ → List ℕ
from zero id = []
from (suc count) id = id ∷ from count (suc id)

abbrev pub free : (ℕ → Bool) → List ℕ → List ℕ
free used [] = []
free used (id ∷ ids) = let rest = free used ids in if used id then rest else id ∷ rest

abbrev absent : Option ℕ → Bool
absent none = true
absent (some w) = false

abbrev pub needing : (ℕ → Bool) → (ℕ → Option ℕ) → List ℕ → List ℕ
needing agents found [] = []
needing agents found (p ∷ ps) =
    let rest = needing agents found ps in if agents p && absent (found p) then p ∷ rest else rest

pub data Problem : Type 0 where
  no_game not_launched not_offline bad_table no_free_identity not_registered : Problem

pub data Result : Type 0 where
  failed : Problem → Result
  configured : List (ℕ × ℕ) → Result

abbrev pub and_then : ℕ × ℕ → Result → Result
and_then pair (failed e) = failed e
and_then pair (configured pairs) = configured (pair ∷ pairs)

abbrev head_of : List ℕ → Option ℕ
head_of [] = none
head_of (id ∷ ids) = some id

-- `while (used[id]) id++` from 1, over the 24 ids there are.
pub lowest : (ℕ → Bool) → Option ℕ
lowest used = head_of (free used (from 24 1))

pub free-head :
    (used : ℕ → Bool) (ids : List ℕ) (id : ℕ) → head_of (free used ids) ≡ some id → used id ≡ false
free-head used [] id h = cc
free-head used (i ∷ is') id h = ground (arith, free-head used is' id)

pub lowest_lem : (used : ℕ → Bool) (id : ℕ) → lowest used ≡ some id → used id ≡ false
unfolding lowest
lowest_lem used id h = free-head used (from 24 1) id h

-- Each slot gets the lowest unused id; the native registration must answer with its tagged index.
pub enroll : (ℕ → ℕ) → (ℕ → Bool) → List ℕ → Result
enroll register used [] = configured []
enroll register used (p ∷ ps) = elim (lowest used) [
  | none ↦ failed no_free_identity
  | some id ↦
      let rest = enroll register (with used id true) ps in
      if register id == (id - 1) + 0x80 then and_then (p, id) rest else failed not_registered
]

abbrev wire_of : (ℕ → Option ℕ) → List (ℕ × ℕ) → ℕ → ℕ
wire_of found [] p = elim (found p) [ none ↦ 0 | some w ↦ w ]
wire_of found ((q, id) ∷ pairs) p = if q == p then id else wire_of found pairs p

abbrev any : (ℕ → Bool) → List ℕ → Bool
any f [] = false
any f (n ∷ ns) = f n || any f ns

abbrev same_mask : (ℕ → Bool) → (ℕ → Bool) → List ℕ → Bool
same_mask f g [] = true
same_mask f g (n ∷ ns) = (if f n then g n else not (g n)) && same_mask f g ns

-- On failure of a registration the ones made are undone by `players_unregister`.
pub players_configure :
    (playing offline : Bool) → Table → (ℕ → ℕ) → (ℕ → Bool) → Players → Result × Players
players_configure playing offline t register agents s =
    let found = scan t (λ p. none) in
    let needed = needing agents found slots in
    if not playing
    then (failed no_game, s)
    else if not (same_mask agents s.launch_agents slots)
    then (failed not_launched, s)
    else if not (any agents slots) || not offline
    then (failed not_offline, s)
    else if too_long t
    then (failed bad_table, s)
    else if ltb (length (free (used_in t) (from 24 1))) (length needed)
    then (failed no_free_identity, s)
    else elim (enroll register (used_in t) needed) [
      | failed e ↦ (failed e, (players_unregister t s).1)
      | configured pairs ↦ (
        configured pairs,
        record s {
          agents = agents;
          wire = wire_of found pairs;
          registered = λ p. s.registered p || absent (found p) && agents p;
        },
      )
    ]

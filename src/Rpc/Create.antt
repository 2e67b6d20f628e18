-- ===== src/Rpc/Create.antt =====
-- wc3hook/rpc.c: create_game, reset and save_replay.
use wc3env.Prelude.{
  ℕ, suc, ◌+◌, Bool, true, false, Option, none, some, List, [], ◌∷◌, ◌++◌, ◌&&◌, ◌||◌, not, ◌==◌,
  if◌then◌else◌, leb, length,
}
use wc3env.Json.{Bytes, codes}
use wc3env.Rpc.{Yyjson, same_text, get, is_list, items, int, str, slot_of, or_empty}
use wc3env.Rpc.Binary.{Seen}
use wc3env.Rpc.Server.{
  launched, in_game, Mode, no_mode, stepping, realtime, is_launched, is_in_game, is_ended, Server,
  bad_status, bad_params, unsupported_config, result, error, Call, restart, save, configure,
  release, Outcome, refuse, unless, choose, restart_job, replay_job, create_job, World, run_job,
}

abbrev pub no_seen : Seen
no_seen = record { obs_seq = λ p. 0; has_last = λ p. false }

-- The globals of rpc.c after restart_job.
unfoldable pub restarted : Server → Server
restarted s = record s { status = launched; mode = no_mode; seen = no_seen; features = λ p. false }

pub races : List Bytes
races = codes "random" ∷ codes "human" ∷ codes "orc" ∷ codes "undead" ∷ codes "night_elf" ∷ []

pub race_from : ℕ → List Bytes → Bytes → Option ℕ
race_from i [] name = none
race_from i (r ∷ rs) name =
    let rest = race_from (suc i) rs name in if same_text name r then some i else rest

pub race_code : Bytes → Option ℕ
race_code name = race_from 0 races name

-- ASCII letters without their case, as `_stricmp` compares them.
abbrev lower : ℕ → ℕ
lower c = if leb b'A' c && leb c b'Z' then c + 32 else c

pub same_path : Bytes → Bytes → Bool
same_path [] [] = true
same_path [] (d ∷ t) = false
same_path (c ∷ s) [] = false
same_path (c ∷ s) (d ∷ t) = lower c == lower d && same_path s t

pub backslashes : Bytes → Bytes
backslashes [] = []
backslashes (c ∷ s) = (if c == b'/' then b'\\' else c) ∷ backslashes s

abbrev has_backslash : Bytes → Bool
has_backslash [] = false
has_backslash (c ∷ s) = c == b'\\' || has_backslash s

-- What follows the last backslash.
pub base_name : Bytes → Bytes
base_name [] = []
base_name (c ∷ s) =
    let rest = base_name s in if has_backslash s then rest else if c == b'\\' then s else c ∷ s

pub map_matches : Bytes → Bytes → Bool
map_matches map requested =
    let path = backslashes requested in
    not (length map == 0)
    && (same_path path map || (not (has_backslash path) && same_path path (base_name map)))

-- A player that create_game asks for: a slot, a race if one is named, and whether it is an agent.
pub record Entrant : Type 0 where
  pub slot : ℕ
  pub race : Option ℕ
  pub agent : Bool

pub control_code : Option Bytes → Option Bool
control_code none = none
control_code (some c) =
    if same_text c (codes "agent")
    then some true
    else if same_text c (codes "computer")
    then some false
    else none

abbrev taken : List Entrant → ℕ → Bool
taken [] p = false
taken (e ∷ es) p = e.slot == p || taken es p

module _ {Num : Type 0} (w : World Num) where
  -- Whether the match restarts, the state then, and the calls.
  unfoldable pub restart_game : Server → Bool × Server × List (Call Num)
  restart_game s =
      if not (w.answers restart_job || w.late restart_job) || w.is_replay || not w.is_offline
      then (false, s, [])
      else (w.answers restart_job && w.restarts, restarted s, restart ∷ [])

  unfoldable pub m_reset : Server → Outcome Num
  m_reset s =
      let r = restart_game s in
      unless (is_launched s.status) bad_status s
        (record { state = r.1; calls = r.2; reply = if r.0 then result else error bad_status })

  -- The race, the controller and the state that a player was loaded with are those asked for.
  pub fits : Entrant → Bool
  fits e =
      let l = w.loaded e.slot in
      (l.slot_state == 1 || (l.slot_state == 2 && w.is_replay))
      && leb 1 l.race
      && leb l.race 4
      && (elim e.race as (λ o. Bool) [
        | none ↦ true
        | some r ↦ l.race == r || (r == 0 && l.random_race)
      ])
      && (l.control == (if e.agent then 0 else 1)
          || (l.control == 1 && e.agent && l.prepared_agent))

  pub all_fit : List Entrant → Bool
  all_fit [] = true
  all_fit (e ∷ es) = fits e && all_fit es

  abbrev pub agents_of : List Entrant → ℕ → Bool
  agents_of [] p = false
  agents_of (e ∷ es) p = (e.slot == p && e.agent) || agents_of es p

  -- The globals of rpc.c once the match is configured.
  unfoldable pub started : Mode → Server → Server
  started mode s = record s { status = in_game; mode = mode; seen = no_seen; features = λ p. false }

  abbrev pub releases : Mode → List (Call Num)
  releases realtime = release ∷ []
  releases _ = []

  -- What create_job does, after the calls so far.
  unfoldable pub create_now : List Entrant → Mode → Server → List (Call Num) → Outcome Num
  create_now es mode s calls =
      if w.setup_error || not (all_fit es)
      then record { state = s; calls = calls; reply = error unsupported_config }
      else if w.configure_error (agents_of es)
      then record {
        state = s;
        calls = calls ++ (configure (agents_of es) ∷ []);
        reply = error unsupported_config;
      }
      else record {
        state = started mode s;
        calls = calls ++ (configure (agents_of es) ∷ releases mode);
        reply = result;
      }

  -- create_job on the game thread.
  unfoldable pub create : List Entrant → Mode → Server → List (Call Num) → Outcome Num
  create es mode s calls =
      if w.answers create_job
      then create_now es mode s calls
      else if w.late create_job
      then record (create_now es mode s calls) { reply = error bad_status }
      else record { state = s; calls = calls; reply = error bad_status }

  -- The wait for the hold, then the job.
  unfoldable pub create_held : List Entrant → Mode → Server → List (Call Num) → Outcome Num
  create_held es mode s calls =
      choose w.holds (create es mode s calls)
        (record { state = s; calls = calls; reply = error bad_status })

  -- A match that has ended restarts first.
  unfoldable pub create_again : List Entrant → Mode → Server → Outcome Num
  create_again es mode s =
      let r = restart_game s in
      choose (is_ended s.status)
        (choose r.0 (create_held es mode r.1 r.2)
          (record { state = r.1; calls = r.2; reply = error bad_status }))
        (create_held es mode s [])

unfoldable pub mode_of : Option Bytes → Option Mode
mode_of none = none
mode_of (some m) =
    if same_text m (codes "stepping")
    then some stepping
    else if same_text m (codes "realtime")
    then some realtime
    else none

module _ {Val Num : Type 0} (y : Yyjson Val Num) (w : World Num) where
  pub race_of : Option Val → Option (Option ℕ)
  race_of none = some none
  race_of (some v) = elim (str y (some v) 32) as (λ o. Option (Option ℕ)) [
    | none ↦ none
    | some name ↦ elim (race_code name) as (λ o. Option (Option ℕ)) [
      | none ↦ none
      | some r ↦ some (some r)
    ]
  ]

  abbrev entrant_of : Option ℕ → Option (Option ℕ) → Option Bool → Option Entrant
  entrant_of (some p) (some race) (some agent) =
      some (record { slot = p; race = race; agent = agent })
  entrant_of _ _ _ = none

  pub entrant : Val → Option Entrant
  entrant v =
      if y.is_obj v
      then entrant_of (slot_of (int y (get y (some v) (codes "slot"))))
          (race_of (get y (some v) (codes "race")))
          (control_code (str y (get y (some v) (codes "control")) 32))
      else none

  -- The players of a request, each slot once.
  pub entrants : List Entrant → List Val → Option (List Entrant)
  entrants before [] = some before
  entrants before (v ∷ vs) = elim (entrant v) as (λ o. Option (List Entrant)) [
    | none ↦ none
    | some e ↦
        let rest = entrants (before ++ (e ∷ [])) vs in if taken before e.slot then none else rest
  ]

  -- The checks of the parameters, then the match.
  unfoldable pub create_checked :
      Option Val → Option (List Entrant) → Option Mode → Server → Outcome Num
  create_checked params none mode s = refuse bad_params s
  create_checked params (some es) none s = refuse bad_params s
  create_checked params (some es) (some mode) s =
      unless (not (map_matches w.map (or_empty (str y (get y params (codes "map")) 1040))))
        unsupported_config s (create_again w es mode s)

  unfoldable pub m_create_game : Option Val → Server → Outcome Num
  m_create_game params s =
      let players = get y params (codes "players") in
      unless (is_in_game s.status) bad_status s (
        unless (length (or_empty (str y (get y params (codes "map")) 1040)) == 0) bad_params s (
          unless (not (is_list y players) || length (items y players) == 0) bad_params s (
            create_checked params (entrants [] (items y players))
              (mode_of (str y (get y params (codes "mode")) 16)) s)))

  unfoldable pub m_save_replay : Option Val → Server → Outcome Num
  m_save_replay params s =
      let path = or_empty (str y (get y params (codes "path")) 260) in
      unless (is_launched s.status || w.is_replay) bad_status s (
        unless (length path == 0) bad_params s (
          run_job w replay_job s (record {
            state = s;
            calls = save path ∷ [];
            reply = if w.saves then result else error bad_status;
          })))

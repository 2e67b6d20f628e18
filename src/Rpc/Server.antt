-- ===== src/Rpc/Server.antt =====
-- wc3hook/rpc.c: the state of the requests' handlers, what they call, and how they reply. What the other
-- parts and the engine answer while a request is served is a parameter, `World`. Of an error the code is
-- kept, and of a result that it is one.
use wc3env.Prelude.{ℕ, Bool, true, false, List, [], if◌then◌else◌}
use wc3env.Json.{Bytes}
use wc3env.Rpc.Binary.{Seen, Writers}
use wc3env.Rpc.Parse.{Parsed}

-- `g_status` and `g_mode`.
pub data Status : Type 0 where
  launched : Status
  in_game : Status
  ended : Status

pub data Mode : Type 0 where
  no_mode : Mode
  stepping : Mode
  realtime : Mode

abbrev pub is_launched : Status → Bool
is_launched launched = true
is_launched _ = false

abbrev pub is_in_game : Status → Bool
is_in_game in_game = true
is_in_game _ = false

abbrev pub is_ended : Status → Bool
is_ended ended = true
is_ended _ = false

abbrev pub is_stepping : Mode → Bool
is_stepping stepping = true
is_stepping _ = false

-- `features` is whether `g_feat` holds a state for a player, and `step_players` the players of
-- `g_step_binary`, which the end of a step observes.
pub record Server : Type 0 where
  pub status : Status
  pub mode : Mode
  pub seen : Seen
  pub features : ℕ → Bool
  pub step_players : List ℕ
  pub quit : Bool

pub data Code : Type 0 where
  bad_status : Code
  bad_params : Code
  bad_version : Code
  bad_request : Code
  not_stepping : Code
  unsupported_config : Code
  unknown_method : Code

pub data Reply : Type 0 where
  result : Reply
  error : Code → Reply

-- What a handler has done by the other parts. `orders` are a player's actions, passed to act_apply.
pub data Call (Num : Type 0) : Type 0 where
  restart : Call Num
  save : Bytes → Call Num
  configure : (ℕ → Bool) → Call Num
  release : Call Num
  orders : ℕ → List (Parsed Num) → Call Num
  step : ℕ → Call Num
  speed : Num → Call Num
  wait_floor : ℕ → Call Num
  render : Bool → Call Num
  stage : Bytes → Call Num

pub record Outcome (Num : Type 0) : Type 0 where
  pub state : Server
  pub calls : List (Call Num)
  pub reply : Reply

abbrev pub refuse : {Num : Type 0} → Code → Server → Outcome Num
refuse c s = record { state = s; calls = []; reply = error c }

-- An early return with an error.
unfoldable pub unless : {Num : Type 0} → Bool → Code → Server → Outcome Num → Outcome Num
unless b c s o = if b then refuse c s else o

-- One of two ways on.
unfoldable pub choose : {Num : Type 0} → Bool → Outcome Num → Outcome Num → Outcome Num
choose b o p = if b then o else p

-- The jobs that the game thread runs for a request.
pub data Job : Type 0 where
  restart_job : Job
  replay_job : Job
  create_job : Job
  acts_job : Job
  observe_job : Job
  stage_job : Job

-- How a player was loaded: PlayerRace, PlayerControl and PlayerSlotState; whether its race was drawn at
-- random, and whether it is an agent by the match's configuration.
pub record Loaded : Type 0 where
  pub race : ℕ
  pub control : ℕ
  pub slot_state : ℕ
  pub random_race : Bool
  pub prepared_agent : Bool

pub record World (Num : Type 0) : Type 0 where
  pub map : Bytes
  pub is_replay : Bool
  pub is_offline : Bool
  pub is_agent : ℕ → Bool
  -- Whether the game thread runs a job in time; and if not, whether it has begun it by then, so that
  -- the caller waits it out and then counts it as failed. A job that it has not begun is withdrawn.
  pub answers : Job → Bool
  pub late : Job → Bool
  -- Whether the game comes to its hold, after a restart and before a match.
  pub restarts : Bool
  pub holds : Bool
  pub saves : Bool
  pub setup_error : Bool
  pub loaded : ℕ → Loaded
  -- Whether act_configure refuses these agents.
  pub configure_error : (ℕ → Bool) → Bool
  pub allocated : Bool
  -- A step: whether step_request refuses it, it finishes in time, the match is over by its end, the
  -- simulation is closed.
  pub step_error : ℕ → Bool
  pub finishes : Bool
  pub game_over : Bool
  pub closed : Bool
  pub mapped : Bool
  pub writers : Writers
  -- Whether there is such a staging operation, and whether it refuses its arguments.
  pub is_stage : Bytes → Bool
  pub stage_error : Bytes → Bool
  -- A coordinate beyond 1,000,000, and a speed in (0, 2048].
  pub far : Num → Bool
  pub is_speed : Num → Bool

-- What a job does, by when the game thread runs it (`run_on_game_thread`).
unfoldable pub run_job : {Num : Type 0} → World Num → Job → Server → Outcome Num → Outcome Num
run_job w j s o =
    if w.answers j
    then o
    else if w.late j
    then record o { reply = error bad_status }
    else refuse bad_status s

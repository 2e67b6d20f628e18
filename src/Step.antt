-- ===== src/Step.antt =====
-- wc3hook/step.c: the GameUpdate hook, step mode and the hold at the start of a map. The globals
-- are a record; the game object that `g_game` and `self` point to is a record of the fields that
-- the hook reads and writes. `GameUpdate_orig` and the job that a frame services are arguments.
pub mod Update
pub mod Requests
pub mod Turns
pub mod Tests
use wc3env.Prelude.{
  ℕ, ◌+◌, ◌-◌, ◌*◌, ◌^◌, ◌%◌, Bool, true, false, not, ◌&&◌, ◌||◌, Option, none, some, List, ◌∷◌,
  ltb, leb, ◌==◌, if◌then◌else◌,
}
use wc3env.Prelude.Words.{add32, sub32, long_pos, long_nonneg}

pub data Status : Type 0 where
  launched in_game ended : Status

-- `g_step_reason`
pub data Reason : Type 0 where
  target running game_over replay_end stalled simulation_closed : Reason

-- What the hook asks of the other components, in the order of the calls.
pub data Call : Type 0 where
  clock_wake stage_each_step cleanup_game_observers setup_hold rpc_step_finished act_flush : Call

-- The fields of the game object, named after the offsets `GAME_*` of wc3hook.h.
pub record Game : Type 0 where
  pub time_ms : ℕ
  pub pending_ms : ℕ
  pub prev_now : ℕ
  pub connection : ℕ
  pub provider : ℕ
  pub replay_length : ℕ

pub record State : Type 0 where
  pub status : Status
  pub game : Option Game
  pub game_tid : ℕ
  pub frame_tls : Bool
  pub stepmode : Bool
  pub stepping : Bool
  pub frozen : Bool
  pub held : Bool
  pub holding : Bool
  pub end_requested : Bool
  pub restarting : Bool
  pub step_target : ℕ
  pub produce_target : ℕ
  pub progress_time : ℕ
  pub reason : Reason
  pub step_started : ℕ
  pub step_frames : ℕ
  pub step_frames_last : ℕ
  pub calls : List Call

abbrev pub max_step_ms : ℕ
max_step_ms = 60000

abbrev pub hold_at_ms : ℕ
hold_at_ms = 1000

abbrev pub step_stall_s : ℕ
step_stall_s = 5

abbrev pub called : Call → State → State
called c s = record s { calls = c ∷ s.calls }

abbrev pub on_game : (Game → Game) → Option Game → Option Game
on_game f none = none
on_game f (some g) = some (f g)

abbrev pub no_pending : Game → Game
no_pending g = record g { pending_ms = 0 }

abbrev pub time_of : Option Game → ℕ
time_of none = 0
time_of (some g) = g.time_ms

abbrev pub plays_replay : Option Game → Bool
plays_replay none = false
plays_replay (some g) = g.connection == 1

abbrev pub end_of_replay : Option Game → ℕ
end_of_replay none = 0
end_of_replay (some g) = g.replay_length

abbrev pub provided_locally : Option Game → Bool
provided_locally none = false
provided_locally (some g) = g.provider == 0x4c4f_4f50 || g.provider == 0x4e4f_4e45

pub game_time : State → ℕ
game_time s = time_of s.game

pub game_is_replay : State → Bool
game_is_replay s = plays_replay s.game

pub game_is_offline : State → Bool
game_is_offline s = provided_locally s.game

-- `clock_freeze(on)` leaves `g_frozen` at `on` (`Clock.freeze`).
pub step_mode : Bool → State → State
step_mode on s = record s {
  stepping = false;
  stepmode = on;
  game = if on then on_game no_pending s.game else s.game;
  frozen = on;
}

pub step_to : ℕ → ℕ → State → State
unfolding game_time
step_to goal qpc s = record s {
  step_target = goal;
  step_started = qpc;
  progress_time = game_time s;
  step_frames = 0;
  reason = running;
  stepping = true;
  frozen = false;
  calls = clock_wake ∷ s.calls;
}

-- The strings that `step_request` returns.
pub data Answer : Type 0 where
  ok not_in_step_mode no_game_yet bad_ms in_flight clock_exhausted : Answer

abbrev pub has_game : Option Game → Bool
has_game none = false
has_game (some g) = true

pub step_goal : State → ℕ → ℕ
unfolding game_is_replay game_time
step_goal s ms =
    let goal = game_time s + ms in
    if game_is_replay s && ltb (end_of_replay s.game) goal then end_of_replay s.game else goal

pub step_request : ℕ → ℕ → State → State × Answer
unfolding step_to step_goal
step_request ms qpc s =
    if not s.stepmode
    then (s, not_in_step_mode)
    else if not (has_game s.game)
    then (s, no_game_yet)
    else if ms == 0 || ltb max_step_ms ms || not (ms % 25 == 0)
    then (s, bad_ms)
    else if s.stepping
    then (s, in_flight)
    else if ltb (0xffff_ffff - game_time s) ms
    then (s, clock_exhausted)
    else (step_to (step_goal s ms) qpc s, ok)

pub step_restart : State → State
unfolding step_mode
step_restart s = record (step_mode false s) {
  held = false;
  holding = false;
  end_requested = false;
  restarting = true;
  produce_target = 0;
  game = none;
  frame_tls = false;
}

-- rpc.c
abbrev pub set_ended : Status → Status
set_ended in_game = ended
set_ended st = st

abbrev pub or_target : Option Reason → Reason
or_target none = target
or_target (some r) = r

-- The game object `t` is the one that `g_game` points to.
pub step_finish : Game → Option Reason → State → State
unfolding game_is_replay
step_finish t why s =
    if not s.stepping
    then s
    else let at_end = not s.holding && game_is_replay s && leb t.replay_length t.time_ms in
      let s' = record s {
        stepping = false;
        status = if at_end then set_ended s.status else s.status;
        frozen = true;
        reason = if at_end then replay_end else or_target why;
        step_frames_last = s.step_frames;
        calls = stage_each_step ∷ s.calls;
      } in
      if s.holding
      then record s' {
        holding = false;
        held = true;
        calls = setup_hold ∷ cleanup_game_observers ∷ s'.calls;
      }
      else called rpc_step_finished s'

pub step_end_after_turn : State → State
step_end_after_turn s = record s { end_requested = true; game = on_game no_pending s.game }

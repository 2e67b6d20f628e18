-- ===== src/Step/Tests.antt =====
-- Concrete games: the theorems on steps at inputs, and runs of the code.
use wc3env.Prelude.{
  ℕ, zero, suc, ◌+◌, ◌-◌, ◌*◌, ◌/◌, ◌≡◌, refl, inl, true, false, List, [], ◌∷◌, arith, some, none,
  All, replicate, ltb, if◌then◌else◌,
}
use wc3env.Step.{
  State, Game, launched, in_game, target, step_request, game_time, game_is_replay, game_is_offline,
  hold_at_ms,
}
use wc3env.Step.Requests.{IsGrantable}
use wc3env.Step.Update.{Env, Outcome, game_update}
use wc3env.Step.Update.Frames.{Paced, IsQuiet, HasLanded}
use wc3env.Step.Update.Landing.{run_frames, step_request-lands}
use wc3env.Step.Update.Hold.{IsNew, game_update-holds}
use wc3env.Step.Update.Idle.{Stands, game_update-idle}
use wc3env.Step.Turns.{Host, IsWithin, host_rounds, host_rounds-total}

-- An engine that takes every pending turn at once, if the budget lies past the game time.
abbrev turns_of : Game → ℕ → ℕ
turns_of g budget = if ltb g.time_ms budget then g.pending_ms / 25 else 0

abbrev greedy : Game → ℕ → ℕ → Outcome
greedy g now budget = record {
  game = record g {
    time_ms = g.time_ms + 25 * turns_of g budget;
    pending_ms = g.pending_ms - 25 * turns_of g budget;
  };
  over = false;
  ret = 1;
}

greedy-Paced : Paced greedy
greedy-Paced = record {
  turns = turns_of;
  advances = λ g b. refl;
  paid = λ g b. ground arith;
  served = λ g b h l. ground arith;
  plays_on = λ g b. refl;
}

abbrev env : Env
env = record {
  engine = greedy;
  job = λ s. s;
  tid = 7;
  qpc_before = 100;
  qpc_after = 200;
  qpc_freq = 10;
}

env-IsQuiet : IsQuiet env
env-IsQuiet = record { no_job = λ s. refl; paced = greedy-Paced }

abbrev local_game : ℕ → Game
local_game time = record {
  time_ms = time;
  pending_ms = 13;
  prev_now = 50;
  connection = 0;
  provider = 0x4c4f_4f50;
  replay_length = 0;
}

abbrev new_state : State
new_state = record {
  status = launched;
  game = none;
  game_tid = 0;
  frame_tls = false;
  stepmode = false;
  stepping = false;
  frozen = false;
  held = false;
  holding = false;
  end_requested = false;
  restarting = false;
  step_target = 0;
  produce_target = 0;
  progress_time = 0;
  reason = target;
  step_started = 0;
  step_frames = 0;
  step_frames_last = 0;
  calls = [];
}

abbrev held_state : State
held_state = record new_state {
  status = in_game;
  game = some (local_game 1000);
  stepmode = true;
  frozen = true;
  held = true;
}

abbrev frames : ℕ → List (Env × ℕ)
frames n = replicate n (env, 60)

frames-IsQuiet : (n : ℕ) → All (λ e. IsQuiet e.0) (frames n)
frames-IsQuiet zero = tt
frames-IsQuiet (suc n) = (env-IsQuiet, frames-IsQuiet n)

held-IsGrantable : IsGrantable 100 held_state
unfolding game_time
held-IsGrantable = record {
  in_step_mode = refl;
  playing = refl;
  idle = refl;
  positive = omega arith;
  bounded = omega arith;
  whole_turns = refl;
  no_wrap = omega arith;
}

-- A second request while a step runs changes nothing.
abbrev in_step : State
in_step = record held_state { stepping = true }

step_request-lands_example :
    let (s', t') = run_frames (frames 5) (step_request 100 190 held_state).0 (local_game 1000) in
    HasLanded 1100 s' t'
unfolding game_is_replay
step_request-lands_example =
    step_request-lands 100 190 held_state (local_game 1000) env 60 (frames 4) held-IsGrantable refl
      refl refl refl refl env-IsQuiet (omega arith) (frames-IsQuiet 4) (omega arith)

abbrev new_game : Game
new_game = local_game 0

loading-IsNew : IsNew new_state new_game
loading-IsNew = record {
  free_running = refl;
  not_held = refl;
  not_over = refl;
  loading = refl;
  restarted = inl refl;
  early = omega arith;
  whole_turns = refl;
}

game_update-holds_example :
    let f = game_update env new_state new_game 60 in
    let (s', t') = run_frames (frames 40) f.state f.self in HasLanded hold_at_ms s' t'
game_update-holds_example =
    game_update-holds env new_state new_game 60 (frames 40) env-IsQuiet loading-IsNew
      (frames-IsQuiet 40) (omega arith)

game_update-idle_example :
    Stands held_state (local_game 1000) (game_update env held_state (local_game 1000) 60)
game_update-idle_example =
    game_update-idle env held_state (local_game 1000) 60 env-IsQuiet refl refl refl

-- A step of 1000 ms whose target the first frame has published: 3 packets carry it.
abbrev producing : State
producing = record held_state { stepping = true; produce_target = 2000 }

abbrev host : Host
host = record { sent_ms = 1000; produce_ms = 0 }

host-IsWithin : IsWithin producing host
unfolding game_is_offline
host-IsWithin = record {
  in_step_mode = refl;
  stepping = refl;
  offline = refl;
  within = omega arith;
  small = omega arith;
  near = omega arith;
}

abbrev rounds : List (ℕ × ℕ)
rounds = (1, 25) ∷ (2, 25) ∷ (3, 25) ∷ []

host_rounds-total_example :
    let (h', total) = host_rounds producing rounds host in
    (h'.sent_ms ≡ 2000) × (1000 + total ≡ 2000)
host_rounds-total_example =
    host_rounds-total producing rounds host host-IsWithin
      (
        (λ e. omega arith, λ e. omega arith),
        ((λ e. omega arith, λ e. omega arith), ((λ e. omega arith, λ e. omega arith), tt)),
      )
      (omega arith)

-- ===== src/Step/Update.antt =====
-- wc3hook/step.c: `GameUpdate_hook`, called once per frame.
pub mod Frames
pub mod Landing
pub mod Hold
pub mod Idle
use wc3env.Prelude.{
  ◌≡◌, refl, ◌∙◌, ◌⊎◌, ◌≤◌, arith, ℕ, ◌+◌, ◌-◌, ◌*◌, Bool, true, false, not, ◌&&◌, Option, none,
  some, ltb, ◌==◌, if◌then◌else◌,
}
use wc3env.Prelude.Words.{sub32, long_pos, long_nonneg}
use wc3env.Step.{
  Status, launched, ended, stalled, simulation_closed, game_over, act_flush, setup_hold,
  rpc_step_finished, Game, State, called, step_mode, step_to, step_finish, step_end_after_turn,
  hold_at_ms, step_stall_s,
}

-- What `GameUpdate_orig` leaves: the game object, whether `RemovePlayer` ended the game in that
-- call (it calls `step_end_after_turn`), and the value returned.
pub record Outcome : Type 0 where
  pub game : Game
  pub over : Bool
  pub ret : ℕ

-- What one frame meets: the engine's own update, of the game object, the time that it is passed and
-- the turn budget that the hook has published by then (`g_produce_target`); the job that is pending, the thread, and two
-- readings of the performance counter with its frequency.
pub record Env : Type 0 where
  pub engine : Game → ℕ → ℕ → Outcome
  pub job : State → State
  pub tid : ℕ
  pub qpc_before : ℕ
  pub qpc_after : ℕ
  pub qpc_freq : ℕ

-- The state, the memory of the object that was updated, and the value returned.
pub record Frame : Type 0 where
  pub state : State
  pub self : Game
  pub ret : ℕ

abbrev pub is_ended : Status → Bool
is_ended ended = true
is_ended st = false

abbrev or_self : Option Game → Game → Game
or_self none t = t
or_self (some g) t = g

-- `return GameUpdate_orig(self, edx, now)` while `g_game` does not point to `self`.
run_unseen : Env → State → Game → ℕ → Frame
run_unseen env s t now =
    let out = env.engine t now s.produce_target in
    record { state = if out.over then step_end_after_turn s else s; self = out.game; ret = out.ret }

start_hold : Env → Game → State → State
unfolding step_to
start_hold env t s =
    if ltb t.time_ms hold_at_ms
    then step_to hold_at_ms env.qpc_before (record s { holding = true })
    else called setup_hold (record s { held = true })

-- The first update of a game enters step mode and steps to `HOLD_AT_MS`.
pub enter_hold : Env → Game → State → State
unfolding step_mode start_hold
enter_hold env t s = if not s.stepmode && not s.held then start_hold env t (step_mode true s) else s

-- `need`, as it is written to `GAME_PENDING_MS`.
pub owed : State → Game → ℕ
owed s t =
    let need = if s.stepping then sub32 s.step_target t.time_ms else 0 in
    if long_pos need then need else 0

-- The checks after `GameUpdate_orig` has run `t`.
pub after_turns : Env → Game → State → State
unfolding step_finish
after_turns env t s =
    if not s.holding && ltb t.time_ms s.progress_time
    then called rpc_step_finished (record s {
      stepping = false;
      frozen = true;
      held = false;
      status = launched;
      reason = simulation_closed;
      step_frames_last = s.step_frames;
    })
    else let moved = not (t.time_ms == s.progress_time) in
      let s' = record s {
        progress_time = t.time_ms;
        step_started = if moved then env.qpc_after else s.step_started;
        produce_target = s.step_target;
      } in
      if s.end_requested
      then step_finish t (some game_over) (record s' { end_requested = false })
      else if long_nonneg (sub32 t.time_ms s.step_target)
      then step_finish t none s'
      else if not s.holding && ltb (step_stall_s * env.qpc_freq) (env.qpc_after - s'.step_started)
      then step_finish t (some stalled) s'
      else s'

-- From the hold check on, with `g_game` at `self`.
pub update_held : Env → State → Game → ℕ → Frame
update_held env s t now =
    let fed = if s.stepmode then record t { pending_ms = owed s t } else t in
    let counted =
      if s.stepmode && s.stepping then record s { step_frames = s.step_frames + 1 } else s in
    let out = env.engine fed (if s.stepmode then t.prev_now else now) s.produce_target in
    let ran = record counted { game = some out.game } in
    let told = if out.over then step_end_after_turn ran else ran in
    let self = or_self told.game out.game in
    record {
      state = if told.stepmode && told.stepping then after_turns env self told else told;
      self = self;
      ret = out.ret;
    }

-- The update of the object that `g_game` points to.
pub play : Env → State → Game → ℕ → Frame
play env s t now = update_held env s (or_self s.game t) now

-- After the job, while `g_game` points to `self`.
pub update_seen : Env → State → Game → ℕ → Frame
update_seen env s t now =
    if is_ended s.status && s.stepmode && not s.stepping
    then record { state = s; self = t; ret = 0 }
    else play env (enter_hold env t (called act_flush s)) t now

-- A job that restarts the game leaves `g_restarting` set.
pub after_job : Env → State → Game → ℕ → Frame
after_job env s t now =
    if s.restarting
    then run_unseen env (record s { game = none }) (or_self s.game t) now
    else update_seen env s (or_self s.game t) now

abbrev pub seen : Env → State → Game → State
seen env s t = record s { restarting = false; game = some t; game_tid = env.tid }

pub game_update : Env → State → Game → ℕ → Frame
game_update env s t now =
    if s.restarting && ltb 25 t.time_ms
    then run_unseen env s t now
    else after_job env (env.job (seen env s t)) t now

game_update-after :
    (env : Env) (s : State) (t : Game) (now : ℕ)
    → (s.restarting ≡ false) ⊎ (t.time_ms ≤ 25)
    → game_update env s t now ≡ after_job env (env.job (seen env s t)) t now
unfolding game_update
game_update-after env s t now r = ground arith

after_job-seen :
    (env : Env) (s : State) (t : Game) (now : ℕ)
    → after_job env (seen env s t) t now ≡ update_seen env (seen env s t) t now
unfolding after_job
after_job-seen env s t now = refl

-- With no job pending, the hook goes on with the game that it now sees.
pub game_update-seen :
    (env : Env) (s : State) (t : Game) (now : ℕ)
    → env.job (seen env s t) ≡ seen env s t
    → (s.restarting ≡ false) ⊎ (t.time_ms ≤ 25)
    → game_update env s t now ≡ update_seen env (seen env s t) t now
game_update-seen env s t now j r =
    game_update-after env s t now r ∙ rw j (after_job-seen env s t now)

-- A frame that is not one of a game that has ended.
pub update_seen-live :
    (env : Env) (s : State) (t : Game) (now : ℕ)
    → (is_ended s.status && s.stepmode && not s.stepping) ≡ false
    → update_seen env s t now ≡ play env (enter_hold env t (called act_flush s)) t now
unfolding update_seen
update_seen-live env s t now h = rw h

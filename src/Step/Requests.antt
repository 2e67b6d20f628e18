-- ===== src/Step/Requests.antt =====
-- What `step_request` accepts, and what it leaves alone.
use wc3env.Prelude.{ℕ, ◌+◌, ◌%◌, ◌^◌, ◌≤◌, ◌<◌, ◌≡◌, ◌≢◌, ◌⊎◌, ◌↔◌, true, false, arith}
use wc3env.Step.{State, ok, step_request, game_time, game_is_replay, has_game, running, max_step_ms}

-- A request that can be granted.
pub record IsGrantable (ms : ℕ) (s : State) : Type 0 where
  pub in_step_mode : s.stepmode ≡ true
  pub playing : has_game s.game ≡ true
  pub idle : s.stepping ≡ false
  pub positive : 0 < ms
  pub bounded : ms ≤ max_step_ms
  pub whole_turns : ms % 25 ≡ 0
  pub no_wrap : game_time s + ms < 2 ^ 32

-- `step_request` answers "ok" exactly to a grantable request.
pub step_request-ok_iff :
    (ms qpc : ℕ) (s : State) → ((step_request ms qpc s).1 ≡ ok) ↔ IsGrantable ms s
unfolding step_request
step_request-ok_iff ms qpc s = (λ h. ground arith, λ g. ground arith)

-- A granted request starts the clock on a step whose target is `ms` after the current game time,
-- or the end of the recording where a replay is shorter than that.
pub record IsStarted (ms : ℕ) (s s' : State) : Type 0 where
  pub stepping : s'.stepping ≡ true
  pub clock_runs : s'.frozen ≡ false
  pub reason : s'.reason ≡ running
  pub from_now : s'.progress_time ≡ game_time s
  pub goal_le : s'.step_target ≤ game_time s + ms
  pub goal : (game_is_replay s ≡ true) ⊎ (s'.step_target ≡ game_time s + ms)
  pub same_game : s'.game ≡ s.game

-- `step_request` either answers "ok" and starts the step, or answers otherwise and changes nothing.
pub step_request-effect :
    (ms qpc : ℕ) (s : State)
    → (((step_request ms qpc s).1 ≡ ok) × IsStarted ms s (step_request ms qpc s).0)
      ⊎ (((step_request ms qpc s).1 ≢ ok) × ((step_request ms qpc s).0 ≡ s))
unfolding step_request
step_request-effect ms qpc s = ground arith

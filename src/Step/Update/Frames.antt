-- ===== src/Step/Update/Frames.antt =====
-- One frame of a running step, and the frames of a whole step.
use wc3env.Prelude.{
  ℕ, ◌+◌, ◌-◌, ◌*◌, ◌^◌, ◌%◌, ◌≤◌, ◌<◌, ◌≡◌, ap, ◌∙◌, ◌⊎◌, inl, inr, refl, true, false, arith, some,
}
use wc3env.Step.{
  State, Game, target, replay_end, act_flush, called, step_finish, game_is_replay, max_step_ms,
  step_stall_s, step_end_after_turn,
}
use wc3env.Step.Update.{
  Env, Outcome, game_update, update_seen, update_held, enter_hold, after_turns, owed, seen, play,
  game_update-seen, update_seen-live,
}

-- What step.c says of the game's turn loop: with `now` at the previous reading nothing is added to
-- the pending time; the loop takes whole turns of 25 ms from it, and one at least while 25 ms are
-- pending and a network turn is available. One is, if the budget that the hook has published before the
-- frame lies past the game time: the host has sent its turns up to the budget by then.
pub record Paced (engine : Game → ℕ → ℕ → Outcome) : Type 0 where
  pub turns : Game → ℕ → ℕ
  pub advances :
      (t : Game) (budget : ℕ)
      → (engine t t.prev_now budget).game.time_ms ≡ t.time_ms + 25 * turns t budget
  pub paid : (t : Game) (budget : ℕ) → 25 * turns t budget ≤ t.pending_ms
  pub served : (t : Game) (budget : ℕ) → 25 ≤ t.pending_ms → t.time_ms < budget → 1 ≤ turns t budget
  pub plays_on : (t : Game) (budget : ℕ) → (engine t t.prev_now budget).over ≡ false

-- A frame on which no job is pending, of a paced engine.
pub record IsQuiet (env : Env) : Type 0 where
  pub no_job : (s : State) → env.job s ≡ s
  pub paced : Paced env.engine

-- A step that runs, of a game that is held or on its way to the hold: whole turns are left to its
-- target.
pub record OnCourse (s : State) (t : Game) : Type 0 where
  pub in_step_mode : s.stepmode ≡ true
  pub stepping : s.stepping ≡ true
  pub settled : s.restarting ≡ false
  pub to_hold : (s.holding ≡ true) ⊎ (s.held ≡ true)
  pub not_over : s.end_requested ≡ false
  pub ahead : t.time_ms < s.step_target
  pub near : s.step_target ≤ t.time_ms + max_step_ms
  pub small : s.step_target < 2 ^ 32
  pub whole_turns : (s.step_target - t.time_ms) % 25 ≡ 0
  pub progress : s.progress_time ≤ t.time_ms

-- The budget for the step is published, so that its turns are sent.
abbrev pub IsBudgeted : State → Type 0
IsBudgeted s = s.produce_target ≡ s.step_target

-- A frame that comes in time for the step not to count as stalled, even if it brings no turn.
abbrev pub IsPrompt : Env → State → Type 0
IsPrompt env s = (s.holding ≡ true) ⊎ (env.qpc_after ≤ s.step_started + step_stall_s * env.qpc_freq)

-- A step that has ended where it had to.
pub record HasLanded (goal : ℕ) (s : State) (t : Game) : Type 0 where
  pub at_goal : t.time_ms ≡ goal
  pub stopped : s.stepping ≡ false
  pub clock_stands : s.frozen ≡ true
  pub held : s.held ≡ true
  pub released : s.holding ≡ false
  pub reason : (s.reason ≡ target) ⊎ (s.reason ≡ replay_end)

-- The time that a frame may spend is what is left to the target.
owed_lem : (s : State) (t : Game) → OnCourse s t → owed s t ≡ s.step_target - t.time_ms
unfolding owed
owed_lem s t c = ground arith

-- The checks after the turns, where the frame did not pass the target, and moved the time or is prompt.
after_turns_lem :
    (env : Env) (s : State) (t t' : Game) (k : ℕ)
    → OnCourse s t
    → t'.time_ms ≡ t.time_ms + 25 * k
    → (1 ≤ k) ⊎ IsPrompt env s
    → t'.time_ms ≤ s.step_target
    → (OnCourse (after_turns env t' s) t'
        × ((after_turns env t' s).step_target ≡ s.step_target)
        × IsBudgeted (after_turns env t' s))
      ⊎ HasLanded s.step_target (after_turns env t' s) t'
unfolding after_turns step_finish game_is_replay
after_turns_lem env s t t' k c e one le = ground arith

pub enter_hold-stepping :
    (env : Env) (s : State) (t : Game) → s.stepmode ≡ true → enter_hold env t s ≡ s
unfolding enter_hold
enter_hold-stepping env s t m = ground arith

-- On a quiet frame of a running step the hook goes straight to the update.
update_seen_lem :
    (env : Env) (s : State) (t : Game) (now : ℕ)
    → s.stepmode ≡ true
    → s.stepping ≡ true
    → update_seen env (seen env s t) t now ≡ update_held env (called act_flush (seen env s t)) t now
unfolding play
update_seen_lem env s t now m g =
    update_seen-live env (seen env s t) t now (ground arith)
    ∙ ap (λ x. play env x t now) (enter_hold-stepping env (called act_flush (seen env s t)) t m)

-- The object as the frame hands it to the engine, and the state as it stands after the engine.
abbrev pub fed : State → Game → Game
fed s t = record t { pending_ms = owed s t }

abbrev ran : Env → State → Game → State
ran env s t = record s {
  step_frames = s.step_frames + 1;
  game = some (env.engine (fed s t) t.prev_now s.produce_target).game;
}

update_held_lem :
    (env : Env) (s : State) (t : Game) (now : ℕ)
    → Paced env.engine
    → s.stepmode ≡ true
    → s.stepping ≡ true
    → update_held env s t now ≡ record {
      state = after_turns env (env.engine (fed s t) t.prev_now s.produce_target).game (ran env s t);
      self = (env.engine (fed s t) t.prev_now s.produce_target).game;
      ret = (env.engine (fed s t) t.prev_now s.produce_target).ret;
    }
unfolding update_held step_end_after_turn
update_held_lem env s t now p m g = ground (arith, p.plays_on (fed s t) s.produce_target)

-- What a frame of a running step comes to, by the least time that it brings.
abbrev pub LandsOn : ℕ → State → Game → State → Game → Type 0
LandsOn least s t s' t' =
    (OnCourse s' t'
      × (s'.step_target ≡ s.step_target)
      × (t.time_ms + least ≤ t'.time_ms)
      × IsBudgeted s')
    ⊎ HasLanded s.step_target s' t'

-- The update of a quiet frame, from a state that is on course, with `least` as the time of a turn if the
-- budget was published.
update_held_by :
    (env : Env) (s : State) (t : Game) (now least : ℕ)
    → Paced env.engine
    → OnCourse s t
    → ((least ≡ 25) × IsBudgeted s) ⊎ ((least ≡ 0) × IsPrompt env s)
    → let f = update_held env s t now in LandsOn least s t f.state f.self
update_held_by env s t now least p c why =
    rw (update_held_lem env s t now p c.in_step_mode c.stepping) (
      ground (
        arith,
        owed_lem s t c,
        p.advances (fed s t) s.produce_target,
        p.paid (fed s t) s.produce_target,
        p.served (fed s t) s.produce_target,
        after_turns_lem env (ran env s t) t (env.engine (fed s t) t.prev_now s.produce_target).game
            (p.turns (fed s t) s.produce_target),
      ))

-- A first frame publishes the budget, whether it brings a turn or not.
pub update_held_starts :
    (env : Env) (s : State) (t : Game) (now : ℕ)
    → Paced env.engine
    → OnCourse s t
    → IsPrompt env s
    → let f = update_held env s t now in LandsOn 0 s t f.state f.self
update_held_starts env s t now p c q = update_held_by env s t now 0 p c (inr (refl, q))

-- A quiet frame of a running step goes straight to the update.
game_update-held :
    (env : Env) (s : State) (t : Game) (now : ℕ)
    → IsQuiet env
    → OnCourse s t
    → game_update env s t now ≡ update_held env (called act_flush (seen env s t)) t now
game_update-held env s t now q c =
    game_update-seen env s t now (q.no_job (seen env s t)) (inl c.settled)
    ∙ update_seen_lem env s t now c.in_step_mode c.stepping

-- The first frame of a step publishes its budget, if it comes in time, and may land it.
pub game_update_starts :
    (env : Env) (s : State) (t : Game) (now : ℕ)
    → IsQuiet env
    → OnCourse s t
    → IsPrompt env s
    → let f = game_update env s t now in LandsOn 0 s t f.state f.self
game_update_starts env s t now q c prompt =
    rw (game_update-held env s t now q c)
      (update_held_starts env (called act_flush (seen env s t)) t now q.paced (ground arith) prompt)

-- A quiet frame brings a running step, whose budget is published, nearer to its target by a turn at
-- least, or lands it there.
pub game_update_lands :
    (env : Env) (s : State) (t : Game) (now : ℕ)
    → IsQuiet env
    → OnCourse s t
    → IsBudgeted s
    → let f = game_update env s t now in LandsOn 25 s t f.state f.self
game_update_lands env s t now q c b = rw (game_update-held env s t now q c) (
    update_held_by env (called act_flush (seen env s t)) t now 25 q.paced (ground arith)
      (inl (refl, b)))

-- ===== src/Step/Update/Hold.antt =====
-- The hold: a new game runs to `HOLD_AT_MS` and stands there, and no game time passes between steps.
use wc3env.Prelude.{
  ℕ, ◌+◌, ◌*◌, ◌%◌, ◌≤◌, ◌<◌, ◌≡◌, refl, ap, ◌∙◌, ◌⊎◌, inl, inr, true, false, List, ◌∷◌, arith,
  length, All, some,
}
use wc3env.Step.{
  launched, State, Game, act_flush, called, step_mode, step_to, no_pending, hold_at_ms, game_time,
}
use wc3env.Step.Update.{
  Env, game_update, update_seen, update_held, enter_hold, start_hold, seen, play, game_update-seen,
  update_seen-live,
}
use wc3env.Step.Update.Frames.{IsQuiet, OnCourse, HasLanded, update_held_starts}
use wc3env.Step.Update.Landing.{run_frames, run_frames_lands, run_frames-stopped}

-- A game that has just been loaded, seen for the first time.
pub record IsNew (s : State) (t : Game) : Type 0 where
  pub free_running : s.stepmode ≡ false
  pub not_held : s.held ≡ false
  pub not_over : s.end_requested ≡ false
  pub loading : s.status ≡ launched
  pub restarted : (s.restarting ≡ false) ⊎ (t.time_ms ≤ 25)
  pub early : t.time_ms < hold_at_ms
  pub whole_turns : t.time_ms % 25 ≡ 0

-- The state from which the first update runs.
abbrev held_start : Env → State → Game → State
held_start env s t = step_to hold_at_ms env.qpc_before (record s {
  restarting = false;
  game = some (no_pending t);
  game_tid = env.tid;
  stepping = false;
  stepmode = true;
  frozen = true;
  holding = true;
  calls = act_flush ∷ s.calls;
})

enter_hold-start :
    (env : Env) (s : State) (t : Game)
    → IsNew s t
    → enter_hold env t (called act_flush (seen env s t)) ≡ held_start env s t
unfolding enter_hold start_hold step_mode step_to
enter_hold-start env s t n = ground arith

play-start :
    (env : Env) (s : State) (t : Game) (now : ℕ)
    → play env (held_start env s t) t now ≡ update_held env (held_start env s t) (no_pending t) now
unfolding play step_to
play-start env s t now = refl

update_seen-start :
    (env : Env) (s : State) (t : Game) (now : ℕ)
    → IsNew s t
    → update_seen env (seen env s t) t now ≡ play env (held_start env s t) t now
update_seen-start env s t now n =
    update_seen-live env (seen env s t) t now (ground arith)
    ∙ ap (λ x. play env x t now) (enter_hold-start env s t n)

held_start-OnCourse :
    (env : Env) (s : State) (t : Game) → IsNew s t → OnCourse (held_start env s t) (no_pending t)
unfolding step_to game_time
held_start-OnCourse env s t n = ground arith

start_goal : (env : Env) (s : State) (t : Game) → (held_start env s t).step_target ≡ hold_at_ms
unfolding step_to
start_goal env s t = refl

-- A new game of a paced engine, on quiet frames, a first one on which the budget is published and then
-- one for each 25 ms at least, ends in the hold: at exactly 1000 ms of game time, held, with the clock
-- standing. An engine is paced if each frame takes a turn at least while 25 ms are pending and a network
-- turn is available, as one is on the frames of a step once its budget was published on an earlier frame.
pub game_update-holds :
    (env : Env) (s : State) (t : Game) (now : ℕ) (es : List (Env × ℕ))
    → IsQuiet env
    → IsNew s t
    → All (λ e. IsQuiet e.0) es
    → hold_at_ms ≤ t.time_ms + 25 * length es
    → let f = game_update env s t now in
      let (s', t') = run_frames es f.state f.self in HasLanded hold_at_ms s' t'
unfolding step_to
game_update-holds env s t now es q n qs h =
    let s1 = held_start env s t in
    let f = update_held env s1 (no_pending t) now in
    rw
      (
        game_update-seen env s t now (q.no_job (seen env s t)) n.restarted,
        update_seen-start env s t now n,
        play-start env s t now,
      )
      (elim (update_held_starts env s1 (no_pending t) now q.paced (held_start-OnCourse env s t n)
        (inl refl)) [
          | inl on ↦ rw (on.1 ∙ start_goal env s t) at (
              run_frames_lands es f.state f.self qs on.0 on.3
                (omega (arith, on.1, start_goal env s t)))
          | inr landed ↦
              rw (run_frames-stopped es f.state f.self landed.stopped)
                (rw (start_goal env s t) at landed)
        ])

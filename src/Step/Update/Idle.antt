-- ===== src/Step/Update/Idle.antt =====
-- Between steps: frames still run, and the game stands.
use wc3env.Prelude.{ℕ, ◌≡◌, inl, inr, true, false, arith, Bool-cases}
use wc3env.Step.{State, Game, act_flush, called}
use wc3env.Step.Update.{
  Env, Frame, game_update, update_seen, update_held, enter_hold, owed, is_ended, seen, play,
  game_update-seen, update_seen-live,
}
use wc3env.Step.Update.Frames.{Paced, IsQuiet, enter_hold-stepping, fed}

-- What a frame between steps leaves alone.
pub record Stands (s : State) (t : Game) (f : Frame) : Type 0 where
  pub time : f.self.time_ms ≡ t.time_ms
  pub idle : f.state.stepping ≡ false
  pub clock : f.state.frozen ≡ s.frozen
  pub reason : f.state.reason ≡ s.reason
  pub budget : f.state.produce_target ≡ s.produce_target
  pub held : f.state.held ≡ s.held

update_held-Stands :
    (env : Env) (s : State) (t : Game) (now : ℕ)
    → Paced env.engine
    → s.stepmode ≡ true
    → s.stepping ≡ false
    → Stands s t (update_held env s t now)
unfolding update_held owed
update_held-Stands env s t now p m g = ground (
  arith,
  p.plays_on (fed s t) s.produce_target,
  p.advances (fed s t) s.produce_target,
  p.paid (fed s t) s.produce_target,
)

play-Stands :
    (env : Env) (s : State) (t : Game) (now : ℕ)
    → Paced env.engine
    → s.stepmode ≡ true
    → s.stepping ≡ false
    → Stands s t (play env (enter_hold env t (called act_flush (seen env s t))) t now)
unfolding play
play-Stands env s t now p m g =
    rw (enter_hold-stepping env (called act_flush (seen env s t)) t m)
      (same (update_held-Stands env (called act_flush (seen env s t)) t now p m g))
  where
    same : {f : Frame} → Stands (called act_flush (seen env s t)) t f → Stands s t f
    same h = assumption

update_seen-Stands :
    (env : Env) (s : State) (t : Game) (now : ℕ)
    → Paced env.engine
    → s.stepmode ≡ true
    → s.stepping ≡ false
    → Stands s t (update_seen env (seen env s t) t now)
unfolding update_seen
update_seen-Stands env s t now p m g = elim (Bool-cases (is_ended s.status)) [
  | inl e ↦ ground arith
  | inr e ↦ rw (update_seen-live env (seen env s t) t now (rw e)) (play-Stands env s t now p m g)
]

-- In step mode, a quiet frame of a paced engine that comes between steps moves neither the game time
-- nor the step's result, its clock or the turn budget.
pub game_update-idle :
    (env : Env) (s : State) (t : Game) (now : ℕ)
    → IsQuiet env
    → s.stepmode ≡ true
    → s.stepping ≡ false
    → s.restarting ≡ false
    → Stands s t (game_update env s t now)
game_update-idle env s t now q m g r =
    rw (game_update-seen env s t now (q.no_job (seen env s t)) (inl r))
      (update_seen-Stands env s t now q.paced m g)

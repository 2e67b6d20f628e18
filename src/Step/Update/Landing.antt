-- ===== src/Step/Update/Landing.antt =====
-- A granted step runs frame by frame to exactly its target, and stops the clock there.
use wc3env.Prelude.{
  ℕ, ◌+◌, ◌*◌, ◌≤◌, ◌≡◌, refl, inl, inr, true, false, List, [], ◌∷◌, arith, if◌then◌else◌, length,
  All, some,
}
use wc3env.Step.{State, Game, step_request, game_is_replay, step_stall_s}
use wc3env.Step.Requests.{IsGrantable}
use wc3env.Step.Update.{Env, game_update}
use wc3env.Step.Update.Frames.{
  IsQuiet, OnCourse, HasLanded, IsBudgeted, IsPrompt, game_update_starts, game_update_lands,
}

-- The frames of a step, each with the time that the game passes to the hook.
pub run_frames : List (Env × ℕ) → State → Game → State × Game
run_frames [] s t = (s, t)
run_frames ((env, now) ∷ es) s t =
    let f = game_update env s t now in
    let rest = run_frames es f.state f.self in if s.stepping then rest else (s, t)

pub run_frames-stopped :
    (es : List (Env × ℕ)) (s : State) (t : Game) → s.stepping ≡ false → run_frames es s t ≡ (s, t)
unfolding run_frames
run_frames-stopped [] s t h = refl
run_frames-stopped ((env, now) ∷ es) s t h = rw h

pub run_frames_lands :
    (es : List (Env × ℕ)) (s : State) (t : Game)
    → All (λ e. IsQuiet e.0) es
    → OnCourse s t
    → IsBudgeted s
    → s.step_target ≤ t.time_ms + 25 * length es
    → let (s', t') = run_frames es s t in HasLanded s.step_target s' t'
unfolding run_frames
run_frames_lands [] s t q c b h = absurd (omega arith)
run_frames_lands ((env, now) ∷ es) s t q c b h =
    let f = game_update env s t now in
    simp c.stepping (elim (game_update_lands env s t now q.0 c b) [
      | inl on ↦ rw on.1 at (run_frames_lands es f.state f.self q.1 on.0 on.3 (omega (arith, on.1)))
      | inr landed ↦ rw (run_frames-stopped es f.state f.self landed.stopped) landed
    ])

-- A first frame that comes in time, and the frames of the step after it.
run_frames_starts :
    (env : Env) (now : ℕ) (es : List (Env × ℕ)) (s : State) (t : Game)
    → IsQuiet env
    → All (λ e. IsQuiet e.0) es
    → OnCourse s t
    → IsPrompt env s
    → s.step_target ≤ t.time_ms + 25 * length es
    → let (s', t') = run_frames ((env, now) ∷ es) s t in HasLanded s.step_target s' t'
unfolding run_frames
run_frames_starts env now es s t q qs c p h =
    let f = game_update env s t now in
    simp c.stepping (elim (game_update_starts env s t now q c p) [
      | inl on ↦ rw on.1 at (run_frames_lands es f.state f.self qs on.0 on.3 (omega (arith, on.1)))
      | inr landed ↦ rw (run_frames-stopped es f.state f.self landed.stopped) landed
    ])

-- A granted request puts the state on course for `ms` after the current game time.
request-OnCourse :
    (ms qpc : ℕ) (s : State) (t : Game)
    → IsGrantable ms s
    → s.game ≡ some t
    → game_is_replay s ≡ false
    → s.restarting ≡ false
    → s.held ≡ true
    → s.end_requested ≡ false
    → OnCourse (step_request ms qpc s).0 t
      × ((step_request ms qpc s).0.step_target ≡ t.time_ms + ms)
      × ((step_request ms qpc s).0.step_started ≡ qpc)
unfolding step_request
request-OnCourse ms qpc s t g e r a b c = ground arith

-- In a live game that was held, a granted request for `ms` lands on quiet frames of a paced engine: a
-- first one, not later than 5 s after the request, on which the budget is published, and then one for
-- each 25 ms at least. The game time is exactly `ms` later, the step has ended for its target (or the
-- end of a recording), and the clock stands. An engine is paced if each frame takes a turn at least
-- while 25 ms are pending and a network turn is available, as one is on the frames of a step once its
-- budget was published on an earlier frame.
pub step_request-lands :
    (ms qpc : ℕ) (s : State) (t : Game) (env : Env) (now : ℕ) (es : List (Env × ℕ))
    → IsGrantable ms s
    → s.game ≡ some t
    → game_is_replay s ≡ false
    → s.restarting ≡ false
    → s.held ≡ true
    → s.end_requested ≡ false
    → IsQuiet env
    → env.qpc_after ≤ qpc + step_stall_s * env.qpc_freq
    → All (λ e. IsQuiet e.0) es
    → ms ≤ 25 * length es
    → let (s', t') = run_frames ((env, now) ∷ es) (step_request ms qpc s).0 t in
      HasLanded (t.time_ms + ms) s' t'
step_request-lands ms qpc s t env now es g e r a b c q p qs h =
    let on = request-OnCourse ms qpc s t g e r a b c in
    rw on.1 at (
      run_frames_starts env now es (step_request ms qpc s).0 t q qs on.0
        (inr (omega (arith, on.2, p))) (omega (arith, on.1)))

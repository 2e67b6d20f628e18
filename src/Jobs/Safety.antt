-- ===== src/Jobs/Safety.antt =====
-- When a call has returned, nobody uses its job any more, and the result tells what became of it.
use wc3env.Prelude.{ℕ, zero, suc, ◌≤◌, ◌<◌, ◌≡◌, ◌≢◌, refl, ◌⊎◌, inl, inr, Bool, true, false, arith}
use wc3env.Jobs.{
  idle, posted, running, Caller, outside, resetting, waiting, timed_out, waiting_out, returned,
  Worker, resting, working, worked, cleared, Handoff, Step, reset_event, post, start, run, clear,
  set_event, wake, time_out, withdraw, wait_out, wake_late, leave, Reach, here, next, start_state,
}

-- Nobody is at work, and none is posted.
abbrev IsQuiet : Handoff → Type 0
IsQuiet h = (h.pending ≡ idle) × (h.worker ≡ resting)

abbrev IsPosted : Handoff → Type 0
IsPosted h =
    (h.pending ≡ posted)
    × (h.worker ≡ resting)
    × (h.job_done ≡ false)
    × (h.job_failed ≡ false)
    × (h.runs ≡ 0)

-- A job between its start and its event.
abbrev IsStarted : Handoff → Type 0
IsStarted h =
    ((h.pending ≡ running)
      × (h.worker ≡ working)
      × (h.job_done ≡ false)
      × (h.job_failed ≡ false)
      × (h.runs ≡ 0))
    ⊎ ((h.pending ≡ running) × (h.worker ≡ worked) × (h.job_done ≡ false) × (h.runs ≡ 1))
    ⊎ ((h.pending ≡ idle) × (h.worker ≡ cleared) × (h.job_done ≡ false) × (h.runs ≡ 1))

abbrev IsSignalled : Handoff → Type 0
IsSignalled h = IsQuiet h × (h.job_done ≡ true) × (h.runs ≡ 1)

-- What the caller's place says of the rest.
abbrev pub Agrees : Caller → Handoff → Type 0
Agrees outside h = IsQuiet h
Agrees resetting h = IsQuiet h × (h.job_done ≡ false) × (h.job_failed ≡ false) × (h.runs ≡ 0)
Agrees waiting h = IsPosted h ⊎ IsStarted h ⊎ IsSignalled h
Agrees timed_out h = IsPosted h ⊎ IsStarted h ⊎ IsSignalled h
Agrees waiting_out h = IsStarted h ⊎ IsSignalled h
Agrees (returned true) h = IsQuiet h × (h.runs ≡ 1) × (h.job_failed ≡ false)
Agrees (returned false) h = IsQuiet h × ((h.runs ≡ 0) ⊎ (h.runs ≡ 1))

Step-Agrees : {h i : Handoff} → Step h i → Agrees h.caller h → Agrees i.caller i
Step-Agrees (reset_event h e) a = ground arith
Step-Agrees (post h e) a = ground arith
Step-Agrees (start h w p) a = ground arith
Step-Agrees (run h fault w) a = ground arith
Step-Agrees (clear h w) a = ground arith
Step-Agrees (set_event h w) a = ground arith
Step-Agrees (wake h e d) a = ground arith
Step-Agrees (time_out h e) a = ground arith
Step-Agrees (withdraw h e p) a = ground arith
Step-Agrees (wait_out h e p) a = ground arith
Step-Agrees (wake_late h e d) a = ground arith
Step-Agrees (leave h r e) a = ground arith

start-Agrees : Agrees outside start_state
unfolding start_state
start-Agrees = (refl, refl)

Reach-Agrees : {h : Handoff} → Reach start_state h → Agrees h.caller h
unfolding start_state
Reach-Agrees here = start-Agrees
Reach-Agrees (next r st) = Step-Agrees st (Reach-Agrees r)

-- Whenever a call returns, its job is neither posted nor being run, so the caller's stack, which
-- the job's argument lies on, is free to go; the job has run at most once; and the result is 1 only
-- if it ran, and without a fault.
pub returned_safe :
    {h : Handoff} (ok : Bool)
    → Reach start_state h
    → h.caller ≡ returned ok
    → (h.pending ≡ idle)
      × (h.worker ≡ resting)
      × (h.runs ≤ 1)
      × ((ok ≡ false) ⊎ ((h.runs ≡ 1) × (h.job_failed ≡ false)))
returned_safe {h} true r e =
    let a : Agrees (returned true) h = rw e at (Reach-Agrees r) in
    (a.0.0, a.0.1, omega (arith, a.1), inr (a.1, a.2))
returned_safe {h} false r e =
    let a : Agrees (returned false) h = rw e at (Reach-Agrees r) in
    (a.0.0, a.0.1, omega (arith, a.1), inl refl)

-- However the steps fall from here on, the caller returns, and with 0: there is always a step to take,
-- and each that can be taken leads on.
pub data Returns : Handoff → Type 0 where
  has_returned : (h : Handoff) → h.caller ≡ returned false → Returns h
  leads_on : (h i : Handoff) → Step h i → ((j : Handoff) → Step h j → Returns j) → Returns h

-- How many steps the game thread has left in its job.
rank : Worker → ℕ
rank resting = 0
rank working = 3
rank worked = 2
rank cleared = 1

-- Every step that falls while the caller waits a job out is one of the job's, or ends the wait.
Step-nearer :
    {h i : Handoff}
    → Step h i
    → h.caller ≡ waiting_out
    → Agrees waiting_out h
    → (i.caller ≡ returned false) ⊎ ((i.caller ≡ waiting_out) × (rank i.worker < rank h.worker))
unfolding rank
Step-nearer (reset_event h e) w a = absurd (cc)
Step-nearer (post h e) w a = absurd (cc)
Step-nearer (start h u p) w a = ground arith
Step-nearer (run h fault u) w a = ground arith
Step-nearer (clear h u) w a = ground arith
Step-nearer (set_event h u) w a = ground arith
Step-nearer (wake h e d) w a = absurd (cc)
Step-nearer (time_out h e) w a = absurd (cc)
Step-nearer (withdraw h e p) w a = absurd (cc)
Step-nearer (wait_out h e p) w a = absurd (cc)
Step-nearer (wake_late h e d) w a = inl refl
Step-nearer (leave h r e) w a = absurd (cc)

-- There is a step to take.
Step-next : (h : Handoff) → h.caller ≡ waiting_out → Agrees waiting_out h → (i : Handoff) × Step h i
Step-next h e (inl (inl a)) = (_, run h false a.1)
Step-next h e (inl (inr (inl a))) = (_, clear h a.1)
Step-next h e (inl (inr (inr a))) = (_, set_event h a.1)
Step-next h e (inr a) = (_, wake_late h e a.1)

all-Returns :
    (n : ℕ) (h : Handoff)
    → rank h.worker < n
    → h.caller ≡ waiting_out
    → Agrees waiting_out h
    → Returns h
all-Returns zero h l e a = absurd (omega arith)
all-Returns (suc n) h l e a = leads_on h _ (Step-next h e a).1 (λ j st. elim (Step-nearer st e a) [
  | inl r ↦ has_returned j r
  | inr (w, m) ↦ all-Returns n j (omega arith) w (rw w at (Step-Agrees st (rw e a)))
])

-- The wait with no timeout is never a deadlock: while the caller is in it, the game thread has the job,
-- which is not still posted; and however the steps fall from there, the caller returns, after a bounded
-- number of them.
pub waiting_out-Returns :
    {h : Handoff} → Reach start_state h → h.caller ≡ waiting_out → (h.pending ≢ posted) × Returns h
waiting_out-Returns {h} r e =
    let a : Agrees waiting_out h = rw e at (Reach-Agrees r) in
    (λ p. ground arith, all-Returns (suc (rank h.worker)) h (omega arith) e a)

-- ===== src/Jobs.antt =====
-- wc3hook/rpc.c: the hand-over of a job to the game thread, `run_on_game_thread` on the pipe thread
-- and `rpc_service_jobs` on the game thread, as interleaved steps. Callers hold `g_job_lock`, so
-- there is one at a time; a call on the game thread itself runs its job at once and is not here.
pub mod Safety
pub mod Tests
use wc3env.Prelude.{ℕ, ◌+◌, ◌≡◌, ◌≢◌, Bool, true, false, not, ◌||◌}

-- `g_job_pending`: 0, 1 and 2.
pub data Pending : Type 0 where
  idle posted running : Pending

-- Where the caller stands: outside; past `ResetEvent`; in the timed wait; past its timeout; in the
-- wait with no timeout; and returned with a result.
pub data Caller : Type 0 where
  outside resetting waiting timed_out waiting_out : Caller
  returned : Bool → Caller

-- Where the game thread stands in `rpc_service_jobs`: outside; in the job; past the job; and past
-- the reset of `g_job_pending`.
pub data Worker : Type 0 where
  resting working worked cleared : Worker

-- `g_job_done` is a manual-reset event. `runs` counts how often the job of this call was run.
pub record Handoff : Type 0 where
  pub pending : Pending
  pub job_done : Bool
  pub job_failed : Bool
  pub caller : Caller
  pub worker : Worker
  pub runs : ℕ

pub data Step : Handoff → Handoff → Type 0 where
  reset_event :
      (h : Handoff)
      → h.caller ≡ outside
      → Step h (record h { job_done = false; job_failed = false; caller = resetting; runs = 0 })
  post :
      (h : Handoff)
      → h.caller ≡ resetting
      → Step h (record h { pending = posted; caller = waiting })
  -- `InterlockedCompareExchange(&g_job_pending, 2, 1) == 1`
  start :
      (h : Handoff)
      → h.worker ≡ resting
      → h.pending ≡ posted
      → Step h (record h { pending = running; worker = working })
  -- The job returns, or faults.
  run :
      (h : Handoff) (fault : Bool)
      → h.worker ≡ working
      → Step h (record h { job_failed = h.job_failed || fault; worker = worked; runs = h.runs + 1 })
  clear : (h : Handoff) → h.worker ≡ worked → Step h (record h { pending = idle; worker = cleared })
  set_event :
      (h : Handoff) → h.worker ≡ cleared → Step h (record h { job_done = true; worker = resting })
  -- `real_wait(g_job_done, timeout_ms)` ends by the event, or by the timeout.
  wake :
      (h : Handoff)
      → h.caller ≡ waiting
      → h.job_done ≡ true
      → Step h (record h { caller = returned (not h.job_failed) })
  time_out : (h : Handoff) → h.caller ≡ waiting → Step h (record h { caller = timed_out })
  -- `InterlockedCompareExchange(&g_job_pending, 0, 1)` finds the job not started, or started.
  withdraw :
      (h : Handoff)
      → h.caller ≡ timed_out
      → h.pending ≡ posted
      → Step h (record h { pending = idle; caller = returned false })
  wait_out :
      (h : Handoff)
      → h.caller ≡ timed_out
      → h.pending ≢ posted
      → Step h (record h { caller = waiting_out })
  wake_late :
      (h : Handoff)
      → h.caller ≡ waiting_out
      → h.job_done ≡ true
      → Step h (record h { caller = returned false })
  leave :
      (h : Handoff) (ok : Bool) → h.caller ≡ returned ok → Step h (record h { caller = outside })

pub data Reach (h : Handoff) : Handoff → Type 0 where
  here : Reach h h
  next : {i j : Handoff} → Reach h i → Step i j → Reach h j

pub start_state : Handoff
start_state = record {
  pending = idle;
  job_done = false;
  job_failed = false;
  caller = outside;
  worker = resting;
  runs = 0;
}

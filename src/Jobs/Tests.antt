-- ===== src/Jobs/Tests.antt =====
-- Runs of the hand-over: one that times out after the job has started.
use wc3env.Prelude.{◌≤◌, ◌≡◌, ◌≢◌, ◌⊎◌, refl, true, false}
use wc3env.Jobs.{
  Handoff, Reach, here, next, start_state, reset_event, post, start, time_out, wait_out, run, clear,
  set_event, wake, waiting_out, returned, idle, posted, resting,
}
use wc3env.Jobs.Safety.{returned_safe, waiting_out-Returns, Returns}

late : (h : Handoff) × Reach start_state h × (h.caller ≡ waiting_out)
unfolding start_state
late = (
  _,
  next
      (next (next (next (next here (reset_event _ refl)) (post _ refl)) (start _ refl refl))
        (time_out _ refl))
      (wait_out _ refl (λ e. cc)),
  refl,
)

served : (h : Handoff) × Reach start_state h × (h.caller ≡ returned true)
unfolding start_state
served = (
  _,
  next
      (next
        (next
          (next (next (next (next here (reset_event _ refl)) (post _ refl)) (start _ refl refl))
            (run _ false refl))
          (clear _ refl))
        (set_event _ refl))
      (wake _ refl refl),
  refl,
)

returned_safe_example :
    (served.0.pending ≡ idle)
    × (served.0.worker ≡ resting)
    × (served.0.runs ≤ 1)
    × ((true ≡ false) ⊎ ((served.0.runs ≡ 1) × (served.0.job_failed ≡ false)))
returned_safe_example = returned_safe true served.1 served.2

waiting_out-Returns_example : (late.0.pending ≢ posted) × Returns late.0
waiting_out-Returns_example = waiting_out-Returns late.1 late.2

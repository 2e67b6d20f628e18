-- ===== src/Clock/Waits.antt =====
-- wc3hook/clock.c: timed waits. While the clock runs they are cut by the speed; while it is frozen
-- they last their full length, and the event that starts the clock ends them. The system calls that
-- the hooks pass on to are an argument.
pub mod Answered
use wc3env.Prelude.{
  ℕ, ◌+◌, ◌≤◌, ◌≡◌, ◌≢◌, ◌⊎◌, Bool, true, false, not, ◌&&◌, ◌||◌, List, [], ◌∷◌, ◌++◌, arith,
  if◌then◌else◌, ltb, leb, ◌==◌, max, length,
}
use wc3env.Clock.{Double, ClockAnchor}

abbrev pub infinite : ℕ
infinite = 0xffff_ffff

abbrev pub wait_timeout : ℕ
wait_timeout = 258

abbrev pub maximum_wait_objects : ℕ
maximum_wait_objects = 64

abbrev pub frozen_wait_min_ms : ℕ
frozen_wait_min_ms = 100

-- The arguments of a wait for several handles.
pub record Wait : Type 0 where
  pub handles : List ℕ
  pub all : Bool
  pub ms : ℕ
  pub alertable : Bool

abbrev pub at_least : ℕ → ℕ → ℕ
at_least low ms = if ltb ms low then low else ms

module _ (D : Double) where
  open D use {above_one, cut, cut_le}

  pub scale_timeout : ClockAnchor D → ℕ → ℕ → ℕ
  scale_timeout a wait_floor ms =
      if not (above_one a.speed) || ms == 0 || ms == infinite
      then ms
      else at_least wait_floor (cut a.speed ms)

  -- `frozen_now`, once `g_running` exists.
  pub frozen_now : ClockAnchor D → ℕ → Bool
  frozen_now a ms = not (ms == 0) && not (ms == infinite) && a.frozen

  -- A timed wait is never lengthened past the floor, nor cut below it; the two special times, and
  -- every time at a speed of one or less, pass through.
  pub scale_timeout_bounds :
      (a : ClockAnchor D) (wait_floor ms : ℕ)
      → (((above_one a.speed ≡ false) ⊎ (ms ≡ 0) ⊎ (ms ≡ infinite))
          × (scale_timeout a wait_floor ms ≡ ms))
        ⊎ ((above_one a.speed ≡ true)
            × (ms ≢ infinite)
            × (wait_floor ≤ scale_timeout a wait_floor ms)
            × (scale_timeout a wait_floor ms ≤ max ms wait_floor))
  unfolding scale_timeout
  scale_timeout_bounds a wait_floor ms = ground (arith, cut_le a.speed ms)

-- `running` is the handle `g_running`, and `os` the native WaitForMultipleObjectsEx.
pub frozen_wait : (Wait → ℕ) → ℕ → Wait → ℕ
frozen_wait os running w =
    let ms = at_least frozen_wait_min_ms w.ms in
    let n = length w.handles in
    if w.all || leb maximum_wait_objects n
    then os (record w { ms = 1 })
    else let r = os (record w { handles = w.handles ++ running ∷ []; all = false; ms = ms }) in
      if r == n then wait_timeout else r

-- MsgWaitForMultipleObjects: an index one past the handles says that input has arrived.
module _ (D : Double) where
  pub msg_wait_hook : (Wait → ℕ) → ℕ → ClockAnchor D → ℕ → Wait → ℕ
  msg_wait_hook os running a wait_floor w =
      let n = length w.handles in
      if frozen_now D a w.ms && not w.all && ltb n maximum_wait_objects
      then (let r = os (record w {
        handles = w.handles ++ running ∷ [];
        all = false;
        ms = at_least frozen_wait_min_ms w.ms;
      }) in
          if r == n then wait_timeout else if r == n + 1 then n else r)
      else os (record w { ms = scale_timeout D a wait_floor w.ms })

  -- The other hooks of waits, and of SleepEx, which answers only with a completed call (0xc0).
  pub wfmo_ex_hook : (Wait → ℕ) → ℕ → ClockAnchor D → ℕ → Wait → ℕ
  wfmo_ex_hook os running a wait_floor w =
      if frozen_now D a w.ms
      then frozen_wait os running w
      else os (record w { ms = scale_timeout D a wait_floor w.ms })

-- `sleep` is the native SleepEx. A sleep made while the clock stands ends with it.
module _ (D : Double) where
  pub sleep_ex_hook : (Wait → ℕ) → (ℕ → Bool → ℕ) → ℕ → ClockAnchor D → ℕ → ℕ → Bool → ℕ
  sleep_ex_hook os sleep running a wait_floor ms alertable =
      if frozen_now D a ms
      then (let r =
            frozen_wait os running
              (record { handles = []; all = false; ms = ms; alertable = alertable }) in
          if r == 0xc0 then r else 0)
      else sleep (scale_timeout D a wait_floor ms) alertable

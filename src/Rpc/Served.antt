-- ===== src/Rpc/Served.antt =====
-- wc3hook/rpc.c: what a request may do to the state and by the other parts, and what an error leaves.
pub mod Create
pub mod Steps
pub mod Play
pub mod Handle
use wc3env.Prelude.{
  ℕ, zero, suc, ◌+◌, ◌*◌, ◌%◌, ◌≤◌, ◌<◌, ◌≡◌, ◌≢◌, ◌⊎◌, inl, inr, refl, sym, ap, Bool, true, false,
  Option, none, some, List, [], ◌∷◌, ◌++◌, ◌&&◌, ◌||◌, not, ◌==◌, if◌then◌else◌, ltb, leb, length,
  All, All-append, arith, Bool-cases,
}
use wc3env.Json.{Bytes}
use wc3env.Rpc.Binary.{Seen}
use wc3env.Rpc.Server.{
  Status, launched, in_game, ended, Mode, no_mode, stepping, realtime, is_launched, is_in_game,
  is_ended, is_stepping, Server, Code, bad_status, bad_params, unsupported_config, Reply, result,
  error, Call, restart, save, configure, release, orders, step, speed, wait_floor, render, stage,
  Outcome, refuse, unless, choose, Job, World, run_job,
}

-- The invariant of the state: from the start of a match to the next restart, a mode is chosen.
abbrev pub IsServer : Server → Type 0
IsServer s = (is_launched s.status ≡ true) ⊎ (s.mode ≢ no_mode)

module _ {Num : Type 0} (w : World Num) where
  -- The calls that a request may make in a state.
  abbrev pub IsAllowed : Server → Call Num → Type 0
  IsAllowed s restart =
      (is_launched s.status ≡ false) × (w.is_replay ≡ false) × (w.is_offline ≡ true)
  IsAllowed s (save path) = (is_launched s.status ≡ false) × (w.is_replay ≡ false)
  IsAllowed s (configure agents) = is_in_game s.status ≡ false
  IsAllowed s release = is_in_game s.status ≡ false
  IsAllowed s (orders p is) =
      (s.status ≡ in_game) × (w.is_replay ≡ false) × (w.is_agent p ≡ true) × (p < 16)
  IsAllowed s (step ms) =
      (s.status ≡ in_game) × (s.mode ≡ stepping) × (0 < ms) × (ms ≤ 60000) × (ms % 25 ≡ 0)
  IsAllowed s (speed f) = s.status ≡ in_game
  IsAllowed s (wait_floor n) = (s.status ≡ in_game) × (n ≤ 1000)
  IsAllowed s (render on) = s.status ≡ in_game
  IsAllowed s (stage op) = s.status ≡ in_game

  -- The replies to a request that has been acted on.
  pub data IsLate : Reply → Type 0 where
    answered : IsLate result
    failed : IsLate (error bad_status)
    unfit : IsLate (error unsupported_config)

  -- What a request comes to: it is refused, and nothing is done; or the players of a step are put down, and its decisions noted up
  -- to a bad one or to bad actions; or a staging operation refuses its arguments; or it is acted on, with
  -- allowed calls and a good state, and fails with one of two codes at most.
  pub data IsServed (s : Server) : Outcome Num → Type 0 where
    refused : (c : Code) → IsServed s (refuse c s)
    noted :
        (c : Code) (last : ℕ → Bool) (ps : List ℕ)
        → s.status ≡ in_game
        → IsServed s
            (refuse c (record s { seen = record s.seen { has_last = last }; step_players = ps }))
    staged :
        (op : Bytes)
        → s.status ≡ in_game
        → IsServed s (record { state = s; calls = stage op ∷ []; reply = error bad_params })
    acted :
        (o : Outcome Num)
        → IsServer o.state
        → All (IsAllowed s) o.calls
        → IsLate o.reply
        → IsServed s o

  -- An early return, then the rest.
  pub unless-IsServed :
      (s : Server) (b : Bool) (c : Code) (o : Outcome Num)
      → (b ≡ false → IsServed s o)
      → IsServed s (unless b c s o)
  unfolding unless
  unless-IsServed s true c o k = refused c
  unless-IsServed s false c o k = k refl

  pub choose-IsServed :
      (s : Server) (b : Bool) (o p : Outcome Num)
      → (b ≡ true → IsServed s o)
      → (b ≡ false → IsServed s p)
      → IsServed s (choose b o p)
  unfolding choose
  choose-IsServed s true o p k l = k refl
  choose-IsServed s false o p k l = l refl

  -- A job on the game thread, whose calls are allowed and whose state is good: it is done in time, or it
  -- is done and counts as failed, or it is not begun.
  pub run_job-IsServed :
      (s : Server) (j : Job) (o : Outcome Num)
      → IsServer o.state
      → All (IsAllowed s) o.calls
      → IsServed s o
      → IsServed s (run_job w j s o)
  unfolding run_job
  run_job-IsServed s j o i h served = by_time (w.answers j) (w.late j)
    where
      by_time :
          (a l : Bool)
          → IsServed s (
              if a
              then o
              else if l
              then record o { reply = error bad_status }
              else refuse bad_status s)
      by_time true l = served
      by_time false true = acted _ i h failed
      by_time false false = refused bad_status

pub in_game_of : (x : Status) → not (is_in_game x) ≡ false → x ≡ in_game
in_game_of launched e = absurd (ground arith)
in_game_of in_game e = refl
in_game_of ended e = absurd (ground arith)

pub stepping_of : (m : Mode) → not (is_stepping m) ≡ false → m ≡ stepping
stepping_of no_mode e = absurd (ground arith)
stepping_of stepping e = refl
stepping_of realtime e = absurd (ground arith)

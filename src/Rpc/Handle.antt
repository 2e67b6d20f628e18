-- ===== src/Rpc/Handle.antt =====
-- wc3hook/rpc.c: debug, quit, and the choice of a request's handler.
use wc3env.Prelude.{
  zero, Bool, true, false, Option, none, some, List, [], ◌∷◌, ◌&&◌, not, ◌==◌, if◌then◌else◌, leb,
}
use wc3env.Prelude.Int.{ℤ, pos, negsuc}
use wc3env.Json.{Bytes, codes}
use wc3env.Rpc.{Yyjson, same_text, get, given, is_object, int, num, str}
use wc3env.Rpc.Server.{
  is_in_game, Server, bad_status, bad_params, bad_version, bad_request, unknown_method, result,
  error, Call, speed, wait_floor, render, stage, Outcome, refuse, unless, choose, stage_job, World,
  run_job,
}
use wc3env.Rpc.Create.{m_create_game, m_reset, m_save_replay}
use wc3env.Rpc.Steps.{m_step}
use wc3env.Rpc.Play.{m_features, m_observe, m_act}

module _ {Val Num : Type 0} (y : Yyjson Val Num) (w : World Num) where
  abbrev pub answer : Server → List (Call Num) → Outcome Num
  answer s calls = record { state = s; calls = calls; reply = result }

  unfoldable pub set_speed : Option Num → Server → Outcome Num
  set_speed none s = refuse bad_params s
  set_speed (some f) s = unless (not (w.is_speed f)) bad_params s (answer s (speed f ∷ []))

  unfoldable pub set_wait_floor : Option ℤ → Server → Outcome Num
  set_wait_floor none s = refuse bad_params s
  set_wait_floor (some (negsuc n)) s = refuse bad_params s
  set_wait_floor (some (pos n)) s =
      unless (not (leb n 1000)) bad_params s (answer s (wait_floor n ∷ []))

  unfoldable pub set_render : Option ℤ → Server → Outcome Num
  set_render none s = refuse bad_params s
  set_render (some (pos zero)) s = answer s (render false ∷ [])
  set_render (some _) s = answer s (render true ∷ [])

  unfoldable pub run_stage : Bytes → Server → Outcome Num
  run_stage op s = run_job w stage_job s (record {
    state = s;
    calls = stage op ∷ [];
    reply = if w.stage_error op then error bad_params else result;
  })

  unfoldable pub debug_op : Option Bytes → Option Val → Server → Outcome Num
  debug_op none args s = refuse bad_params s
  debug_op (some op) args s = unless (given y args && not (is_object y args)) bad_params s (
      choose (same_text op (codes "speed")) (set_speed (num y (get y args (codes "factor"))) s) (
        choose (same_text op (codes "waitfloor"))
          (set_wait_floor (int y (get y args (codes "ms"))) s)
          (choose (same_text op (codes "render")) (set_render (int y (get y args (codes "on"))) s)
            (choose (w.is_stage op) (run_stage op s) (refuse bad_params s)))))

  unfoldable pub m_debug : Option Val → Server → Outcome Num
  m_debug params s =
      unless (not (is_in_game s.status)) bad_status s
        (debug_op (str y (get y params (codes "op")) 32) (get y params (codes "args")) s)

  unfoldable pub m_info : Server → Outcome Num
  m_info s = answer s []

  unfoldable pub m_quit : Server → Outcome Num
  m_quit s = answer (record s { quit = true }) []

  -- The handler of a method.
  unfoldable pub dispatch : Bytes → Option Val → Server → Outcome Num
  dispatch method params s = choose (same_text method (codes "info")) (m_info s) (
      choose (same_text method (codes "create_game")) (m_create_game y w params s) (
        choose (same_text method (codes "reset")) (m_reset w s) (
          choose (same_text method (codes "save_replay")) (m_save_replay y w params s) (
            choose (same_text method (codes "step")) (m_step y w params s) (
              choose (same_text method (codes "observe")) (m_observe y w params s) (
                choose (same_text method (codes "features")) (m_features y w params s) (
                  choose (same_text method (codes "act")) (m_act y w params s) (
                    choose (same_text method (codes "debug")) (m_debug params s) (
                      choose (same_text method (codes "quit")) (m_quit s)
                        (refuse unknown_method s))))))))))

  abbrev pub is_one : Option ℤ → Bool
  is_one (some (pos n)) = n == 1
  is_one _ = false

  abbrev pub has_id : Option ℤ → Bool
  has_id none = false
  has_id (some n) = true

  unfoldable pub call_method : Option Bytes → Option Val → Server → Outcome Num
  call_method none params s = refuse bad_request s
  call_method (some method) params s =
      unless (given y params && not (is_object y params)) bad_params s (dispatch method params s)

  -- A request: the root of its document, if it could be read.
  unfoldable pub rpc_handle : Option Val → Server → Outcome Num
  rpc_handle root s = unless (not (is_object y root)) bad_request s (
      unless (not (is_one (int y (get y root (codes "protocol_version"))))) bad_version s (
        unless (not (has_id (int y (get y root (codes "id"))))) bad_request s
          (call_method (str y (get y root (codes "method")) 32) (get y root (codes "params")) s)))

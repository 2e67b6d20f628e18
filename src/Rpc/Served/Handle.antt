-- ===== src/Rpc/Served/Handle.antt =====
-- wc3hook/rpc.c: what a request comes to.
use wc3env.Prelude.{
  zero, suc, ◌≡◌, Bool, true, false, Option, none, some, [], ◌∷◌, if◌then◌else◌, leb, leb→le,
}
use wc3env.Prelude.Int.{ℤ, pos, negsuc}
use wc3env.Json.{Bytes}
use wc3env.Rpc.{Yyjson}
use wc3env.Rpc.Server.{
  in_game, Server, bad_params, bad_request, unknown_method, result, error, stage, World,
}
use wc3env.Rpc.Handle.{
  set_speed, set_wait_floor, set_render, run_stage, debug_op, m_debug, m_info, m_quit, dispatch,
  call_method, rpc_handle,
}
use wc3env.Rpc.Served.{
  IsServer, answered, IsServed, refused, staged, acted, unless-IsServed, choose-IsServed,
  run_job-IsServed, in_game_of,
}
use wc3env.Rpc.Served.Create.{m_reset-IsServed, m_create_game-IsServed, m_save_replay-IsServed}
use wc3env.Rpc.Served.Steps.{not-false, m_step-IsServed}
use wc3env.Rpc.Served.Play.{m_features-IsServed, m_observe-IsServed, m_act-IsServed}

module _ {Val Num : Type 0} (y : Yyjson Val Num) (w : World Num) where
  set_speed-IsServed :
      (o : Option Num) (s : Server)
      → s.status ≡ in_game
      → IsServer s
      → IsServed w s (set_speed y w o s)
  unfolding set_speed
  set_speed-IsServed none s g i = refused bad_params
  set_speed-IsServed (some f) s g i = unless-IsServed w s _ _ _ λ _. acted _ i (g, tt) answered

  set_wait_floor-IsServed :
      (o : Option ℤ) (s : Server)
      → s.status ≡ in_game
      → IsServer s
      → IsServed w s (set_wait_floor y w o s)
  unfolding set_wait_floor
  set_wait_floor-IsServed none s g i = refused bad_params
  set_wait_floor-IsServed (some (negsuc n)) s g i = refused bad_params
  set_wait_floor-IsServed (some (pos n)) s g i =
      unless-IsServed w s _ _ _
        λ e. acted _ i ((g, leb→le n 1000 (not-false (leb n 1000) e)), tt) answered

  set_render-IsServed :
      (o : Option ℤ) (s : Server)
      → s.status ≡ in_game
      → IsServer s
      → IsServed w s (set_render y w o s)
  unfolding set_render
  set_render-IsServed none s g i = refused bad_params
  set_render-IsServed (some (pos zero)) s g i = acted _ i (g, tt) answered
  set_render-IsServed (some (pos (suc n))) s g i = acted _ i (g, tt) answered
  set_render-IsServed (some (negsuc n)) s g i = acted _ i (g, tt) answered

  run_stage-IsServed :
      (op : Bytes) (s : Server)
      → s.status ≡ in_game
      → IsServer s
      → IsServed w s (run_stage y w op s)
  unfolding run_stage
  run_stage-IsServed op s g i = run_job-IsServed w s _ _ i (g, tt) (by_error (w.stage_error op))
    where
      by_error :
          (b : Bool)
          → IsServed w s (record {
            state = s;
            calls = stage op ∷ [];
            reply = if b then error bad_params else result;
          })
      by_error true = staged op g
      by_error false = acted _ i (g, tt) answered

  debug_op-IsServed :
      (op : Option Bytes) (args : Option Val) (s : Server)
      → s.status ≡ in_game
      → IsServer s
      → IsServed w s (debug_op y w op args s)
  unfolding debug_op
  debug_op-IsServed none args s g i = refused bad_params
  debug_op-IsServed (some op) args s g i = unless-IsServed w s _ _ _ λ _.
      choose-IsServed w s _ _ _ (λ _. set_speed-IsServed _ s g i)
        λ _.
          choose-IsServed w s _ _ _ (λ _. set_wait_floor-IsServed _ s g i)
            λ _.
              choose-IsServed w s _ _ _ (λ _. set_render-IsServed _ s g i)
                λ _.
                  choose-IsServed w s _ _ _ (λ _. run_stage-IsServed op s g i)
                    λ _. refused bad_params

  m_debug-IsServed :
      (params : Option Val) (s : Server) → IsServer s → IsServed w s (m_debug y w params s)
  unfolding m_debug
  m_debug-IsServed params s i =
      unless-IsServed w s _ _ _ λ g. debug_op-IsServed _ _ s (in_game_of s.status g) i

  dispatch-IsServed :
      (method : Bytes) (params : Option Val) (s : Server)
      → IsServer s
      → IsServed w s (dispatch y w method params s)
  unfolding dispatch m_info m_quit
  dispatch-IsServed method params s i =
      choose-IsServed w s _ _ _ (λ _. acted _ i tt answered)
        λ _.
          choose-IsServed w s _ _ _ (λ _. m_create_game-IsServed y w params s i)
            λ _.
              choose-IsServed w s _ _ _ (λ _. m_reset-IsServed w s i)
                λ _.
                  choose-IsServed w s _ _ _ (λ _. m_save_replay-IsServed y w params s i)
                    λ _.
                      choose-IsServed w s _ _ _ (λ _. m_step-IsServed y w params s i)
                        λ _.
                          choose-IsServed w s _ _ _ (λ _. m_observe-IsServed y w params s i)
                            λ _.
                              choose-IsServed w s _ _ _ (λ _. m_features-IsServed y w params s i)
                                λ _.
                                  choose-IsServed w s _ _ _ (λ _. m_act-IsServed y w params s i)
                                    λ _.
                                      choose-IsServed w s _ _ _ (λ _. m_debug-IsServed params s i)
                                        λ _.
                                          choose-IsServed w s _ _ _ (λ _. acted _ i tt answered)
                                            λ _. refused unknown_method

  call_method-IsServed :
      (method : Option Bytes) (params : Option Val) (s : Server)
      → IsServer s
      → IsServed w s (call_method y w method params s)
  unfolding call_method
  call_method-IsServed none params s i = refused bad_request
  call_method-IsServed (some method) params s i =
      unless-IsServed w s _ _ _ λ _. dispatch-IsServed method params s i

  -- What any request comes to, in a state that keeps to the invariant (outside a launched game a
  -- mode is chosen), whatever its text and whatever the game answers, where no job faults. It is
  -- refused with an error, no call is made and the state stays; or a step is refused with the
  -- players to observe put down and some decisions noted, and no more; or a staging operation
  -- refuses its arguments; or it is acted on, which covers a job that was begun but not done in
  -- time and so is answered with bad_status: the invariant holds again, and the reply is a result,
  -- bad_status or unsupported_config. Each call it makes by then is allowed. A restart comes in an
  -- offline game past its launch and not in a replay. A match is configured and released out of a
  -- match only. Orders pass in a match, for an agent in slot 0 to 15, and never in a replay. A
  -- step of a multiple of 25 ms, up to 60000, passes in a match in step mode. Speed, wait floor,
  -- rendering and staging change in a match. Of a reply no more is told than its code.
  pub rpc_handle-IsServed :
      (root : Option Val) (s : Server) → IsServer s → IsServed w s (rpc_handle y w root s)
  unfolding rpc_handle
  rpc_handle-IsServed root s i = unless-IsServed w s _ _ _ λ _.
      unless-IsServed w s _ _ _ λ _. unless-IsServed w s _ _ _ λ _. call_method-IsServed _ _ s i

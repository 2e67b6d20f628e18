-- ===== src/Rpc/Served/Play.antt =====
-- wc3hook/rpc.c: what features, observe and act come to.
use wc3env.Prelude.{
  ℕ, ◌<◌, ◌≡◌, refl, Bool, true, false, Option, none, some, List, if◌then◌else◌, arith,
}
use wc3env.Json.{codes}
use wc3env.Rpc.{Yyjson, get, given, slot_of, player_param, int}
use wc3env.Rpc.Parse.{Parsed, Batch, parsed, malformed, no_memory}
use wc3env.Rpc.Server.{in_game, Server, bad_status, bad_params, orders, World}
use wc3env.Rpc.Play.{
  features_for, m_features, observe_as, observe_for, m_observe, pass_orders, act_for, m_act,
}
use wc3env.Rpc.Served.{
  IsServer, IsAllowed, answered, IsServed, refused, acted, unless-IsServed, run_job-IsServed,
  in_game_of,
}
use wc3env.Rpc.Served.Create.{IsLate-if}
use wc3env.Rpc.Served.Steps.{slot_of-lt, not-false}

module _ {Val Num : Type 0} (y : Yyjson Val Num) (w : World Num) where
  features_for-IsServed :
      (params : Option Val) (o : Option ℕ) (s : Server)
      → IsServer s
      → IsServed w s (features_for y w params o s)
  unfolding features_for
  features_for-IsServed params none s i = refused bad_params
  features_for-IsServed params (some p) s i =
      unless-IsServed w s _ _ _ λ _. unless-IsServed w s _ _ _ λ _. acted _ i tt answered

  pub m_features-IsServed :
      (params : Option Val) (s : Server) → IsServer s → IsServed w s (m_features y w params s)
  unfolding m_features
  m_features-IsServed params s i = unless-IsServed w s _ _ _ λ _. features_for-IsServed params _ s i

  observe_as-IsServed :
      (p : ℕ) (o : Option Bool) (s : Server) → IsServer s → IsServed w s (observe_as y w p o s)
  unfolding observe_as
  observe_as-IsServed p none s i = refused bad_params
  observe_as-IsServed p (some false) s i = run_job-IsServed w s _ _ i tt (acted _ i tt answered)
  observe_as-IsServed p (some true) s i =
      unless-IsServed w s _ _ _ λ _. run_job-IsServed w s _ _ i tt (acted _ i tt (IsLate-if w _))

  observe_for-IsServed :
      (params : Option Val) (o : Option ℕ) (s : Server)
      → IsServer s
      → IsServed w s (observe_for y w params o s)
  observe_for-IsServed params none s i = refused bad_params
  observe_for-IsServed params (some p) s i = observe_as-IsServed p _ s i

  pub m_observe-IsServed :
      (params : Option Val) (s : Server) → IsServer s → IsServed w s (m_observe y w params s)
  unfolding m_observe
  m_observe-IsServed params s i = unless-IsServed w s _ _ _ λ _. observe_for-IsServed params _ s i

  pass_orders-IsServed :
      (p : ℕ) (b : Batch Num) (s : Server)
      → IsServer s
      → ((is : List (Parsed Num)) → IsAllowed w s (orders p is))
      → IsServed w s (pass_orders y w p b s)
  unfolding pass_orders
  pass_orders-IsServed p (malformed k) s i h = refused bad_params
  pass_orders-IsServed p no_memory s i h = refused bad_status
  pass_orders-IsServed p (parsed is) s i h =
      run_job-IsServed w s _ _ i (h is, tt) (acted _ i (h is, tt) answered)

  act_for-IsServed :
      (params : Option Val) (o : Option ℕ) (s : Server)
      → ((p : ℕ) → o ≡ some p → p < 16)
      → s.status ≡ in_game
      → w.is_replay ≡ false
      → IsServer s
      → IsServed w s (act_for y w params o s)
  unfolding act_for
  act_for-IsServed params none s h g r i = refused bad_params
  act_for-IsServed params (some p) s h g r i = unless-IsServed w s _ _ _ λ a.
      unless-IsServed w s _ _ _
        λ _. pass_orders-IsServed p _ s i λ is. (g, r, not-false (w.is_agent p) a, h p refl)

  player_param-lt : (params : Option Val) (p : ℕ) → player_param y params true ≡ some p → p < 16
  unfolding player_param
  player_param-lt params p e = by_given (given y (get y params (codes "player"))) e
    where
      by_given :
          (b : Bool)
          → (if b
              then slot_of (int y (get y params (codes "player")))
              else if true
              then none
              else some 0)
            ≡ some p
          → p < 16
      by_given true q = slot_of-lt (int y (get y params (codes "player"))) p q
      by_given false q = absurd (ground arith)

  pub m_act-IsServed :
      (params : Option Val) (s : Server) → IsServer s → IsServed w s (m_act y w params s)
  unfolding m_act
  m_act-IsServed params s i = unless-IsServed w s _ _ _ λ g.
      unless-IsServed w s _ _ _
        λ r. act_for-IsServed params _ s (player_param-lt params) (in_game_of s.status g) r i

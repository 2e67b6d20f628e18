-- ===== src/Rpc/Served/Create.antt =====
-- wc3hook/rpc.c: what create_game, reset and save_replay come to.
use wc3env.Prelude.{
  ◌≡◌, ◌≢◌, inl, inr, refl, ap, ◌∙◌, Bool, true, false, Option, none, some, List, [], ◌∷◌, ◌++◌,
  ◌||◌, ◌&&◌, not, if◌then◌else◌, All, All-append, arith,
}
use wc3env.Json.{Bytes}
use wc3env.Rpc.{Yyjson}
use wc3env.Rpc.Server.{
  Status, launched, in_game, ended, Mode, no_mode, stepping, realtime, is_launched, is_in_game,
  is_ended, Server, bad_status, bad_params, unsupported_config, result, error, Call, restart,
  configure, Outcome, choose, restart_job, create_job, World,
}
use wc3env.Rpc.Create.{
  restarted, restart_game, m_reset, Entrant, agents_of, all_fit, started, releases, create_now,
  create, create_held, create_again, create_checked, m_create_game, m_save_replay, mode_of,
}
use wc3env.Rpc.Served.{
  IsServer, IsAllowed, IsLate, answered, failed, unfit, IsServed, refused, acted, unless-IsServed,
  choose-IsServed, run_job-IsServed,
}

pub IsLate-if :
    {Num : Type 0} (w : World Num) (b : Bool) → IsLate w (if b then result else error bad_status)
IsLate-if w true = answered
IsLate-if w false = failed

module _ {Num : Type 0} (w : World Num) where
  -- What restart_game comes to.
  data IsRestart (s : Server) : Bool × Server × List (Call Num) → Type 0 where
    stays : IsRestart s (false, s, [])
    restarts :
        (b : Bool)
        → w.is_replay ≡ false
        → w.is_offline ≡ true
        → IsRestart s (b, restarted s, restart ∷ [])

  restart_game-IsRestart : (s : Server) → IsRestart s (restart_game w s)
  unfolding restart_game
  restart_game-IsRestart s =
      by_tests (w.answers restart_job) (w.late restart_job) w.is_replay w.is_offline refl refl
    where
      by_tests :
          (a l r o : Bool)
          → w.is_replay ≡ r
          → w.is_offline ≡ o
          → IsRestart s (
              if not (a || l) || r || not o
              then (false, s, [])
              else (a && w.restarts, restarted s, restart ∷ []))
      by_tests true l false true e e₂ = restarts w.restarts e e₂
      by_tests true l false false e e₂ = stays
      by_tests true l true o e e₂ = stays
      by_tests false true false true e e₂ = restarts false e e₂
      by_tests false true false false e e₂ = stays
      by_tests false true true o e e₂ = stays
      by_tests false false r o e e₂ = stays

  reset_by :
      (s : Server) (r : Bool × Server × List (Call Num))
      → IsServer s
      → is_launched s.status ≡ false
      → IsRestart s r
      → IsServed w s
          (record { state = r.1; calls = r.2; reply = if r.0 then result else error bad_status })
  unfolding restarted
  reset_by s _ i l stays = refused bad_status
  reset_by s _ i l (restarts b e e₂) = acted _ (inl refl) ((l, e, e₂), tt) (IsLate-if w b)

  pub m_reset-IsServed : (s : Server) → IsServer s → IsServed w s (m_reset w s)
  unfolding m_reset
  m_reset-IsServed s i = unless-IsServed w s _ _ _ λ l. reset_by s _ i l (restart_game-IsRestart s)

  -- The match, created in a state, with the calls that led there.
  record IsCreated (s₀ : Server) (o : Outcome Num) : Type 0 where
    pub good : IsServer o.state
    pub allowed : All (IsAllowed w s₀) o.calls
    pub late : IsLate w o.reply

  create_now-IsCreated :
      (s₀ s : Server) (es : List Entrant) (mode : Mode) (calls : List (Call Num))
      → mode ≢ no_mode
      → IsServer s
      → is_in_game s₀.status ≡ false
      → All (IsAllowed w s₀) calls
      → IsCreated s₀ (create_now w es mode s calls)
  unfolding create_now started
  create_now-IsCreated s₀ s es mode calls hm i g hc =
      by_tests (w.setup_error || not (all_fit w es)) (w.configure_error (agents_of w es))
    where
      released : (m : Mode) → All (IsAllowed w s₀) (releases w m)
      released realtime = (g, tt)
      released stepping = tt
      released no_mode = tt

      by_tests :
          (b c : Bool)
          → IsCreated s₀ (
              if b
              then record { state = s; calls = calls; reply = error unsupported_config }
              else if c
              then record {
                state = s;
                calls = calls ++ (configure (agents_of w es) ∷ []);
                reply = error unsupported_config;
              }
              else record {
                state = started w mode s;
                calls = calls ++ (configure (agents_of w es) ∷ releases w mode);
                reply = result;
              })
      by_tests true c = record { good = i; allowed = hc; late = unfit }
      by_tests false true = record {
        good = i;
        allowed = All-append _ calls _ hc (g, tt);
        late = unfit;
      }
      by_tests false false = record {
        good = inr hm;
        allowed = All-append _ calls _ hc (g, released mode);
        late = answered;
      }

  create-IsServed :
      (s₀ s : Server) (es : List Entrant) (mode : Mode) (calls : List (Call Num))
      → mode ≢ no_mode
      → IsServer s
      → is_in_game s₀.status ≡ false
      → All (IsAllowed w s₀) calls
      → IsServed w s₀ (create w es mode s calls)
  unfolding create
  create-IsServed s₀ s es mode calls hm i g hc =
      by_time (w.answers create_job) (w.late create_job)
        (create_now-IsCreated s₀ s es mode calls hm i g hc)
    where
      by_time :
          (a l : Bool)
          → IsCreated s₀ (create_now w es mode s calls)
          → IsServed w s₀ (
              if a
              then create_now w es mode s calls
              else if l
              then record (create_now w es mode s calls) { reply = error bad_status }
              else record { state = s; calls = calls; reply = error bad_status })
      by_time true l c = acted _ c.good c.allowed c.late
      by_time false true c = acted _ c.good c.allowed failed
      by_time false false c = acted _ i hc failed

  create_held-IsServed :
      (s₀ s : Server) (es : List Entrant) (mode : Mode) (calls : List (Call Num))
      → mode ≢ no_mode
      → IsServer s
      → is_in_game s₀.status ≡ false
      → All (IsAllowed w s₀) calls
      → IsServed w s₀ (create_held w es mode s calls)
  unfolding create_held
  create_held-IsServed s₀ s es mode calls hm i g hc =
      choose-IsServed w s₀ _ _ _ (λ e. create-IsServed s₀ s es mode calls hm i g hc)
        λ e. acted _ i hc failed

  again_by :
      (s : Server) (es : List Entrant) (mode : Mode) (r : Bool × Server × List (Call Num))
      → mode ≢ no_mode
      → IsServer s
      → is_in_game s.status ≡ false
      → is_launched s.status ≡ false
      → IsRestart s r
      → IsServed w s (
          choose r.0
            (create_held w es mode r.1 r.2)
            (record { state = r.1; calls = r.2; reply = error bad_status }))
  unfolding restarted choose
  again_by s es mode _ hm i g l stays = refused bad_status
  again_by s es mode _ hm i g l (restarts true e e₂) =
      create_held-IsServed s _ es mode _ hm (inl refl) g ((l, e, e₂), tt)
  again_by s es mode _ hm i g l (restarts false e e₂) = acted _ (inl refl) ((l, e, e₂), tt) failed

  not_launched : (x : Status) → is_ended x ≡ true → is_launched x ≡ false
  not_launched launched e = absurd (ground arith)
  not_launched in_game e = refl
  not_launched ended e = refl

  create_again-IsServed :
      (s : Server) (es : List Entrant) (mode : Mode)
      → mode ≢ no_mode
      → IsServer s
      → is_in_game s.status ≡ false
      → IsServed w s (create_again w es mode s)
  unfolding create_again
  create_again-IsServed s es mode hm i g =
      choose-IsServed w s _ _ _
        (λ e. again_by s es mode _ hm i g (not_launched s.status e) (restart_game-IsRestart s))
        λ e. create_held-IsServed s s es mode [] hm i g tt

not_mode : (o : Option Bytes) (m : Mode) → mode_of o ≡ some m → m ≢ no_mode
unfolding mode_of
not_mode none m e = absurd (ground arith)
not_mode (some t) m e = by_names _ _ e
  where
    of_some : {a b : Mode} → some a ≡ some b → a ≢ no_mode → b ≢ no_mode
    of_some {a} p h q = h (ap (λ o. elim o as (λ o. Mode) [ none ↦ a | some c ↦ c ]) p ∙ q)

    by_names :
        (a b : Bool)
        → (if a then some stepping else if b then some realtime else none) ≡ some m
        → m ≢ no_mode
    by_names true b p = of_some p λ q. absurd (ground arith)
    by_names false true p = of_some p λ q. absurd (ground arith)
    by_names false false p = absurd (ground arith)

not_replay : (l r : Bool) → (l || r) ≡ false → (l ≡ false) × (r ≡ false)
not_replay true r e = absurd (ground arith)
not_replay false r e = (refl, e)

module _ {Val Num : Type 0} (y : Yyjson Val Num) (w : World Num) where
  create_checked-IsServed :
      (params : Option Val) (es : Option (List Entrant)) (mode : Option Mode) (s : Server)
      → ((m : Mode) → mode ≡ some m → m ≢ no_mode)
      → IsServer s
      → is_in_game s.status ≡ false
      → IsServed w s (create_checked y w params es mode s)
  unfolding create_checked
  create_checked-IsServed params none mode s hm i g = refused bad_params
  create_checked-IsServed params (some es) none s hm i g = refused bad_params
  create_checked-IsServed params (some es) (some mode) s hm i g =
      unless-IsServed w s _ _ _ λ e. create_again-IsServed w s es mode (hm mode refl) i g

  pub m_create_game-IsServed :
      (params : Option Val) (s : Server) → IsServer s → IsServed w s (m_create_game y w params s)
  unfolding m_create_game
  m_create_game-IsServed params s i = unless-IsServed w s _ _ _ λ g.
      unless-IsServed w s _ _ _
        λ _. unless-IsServed w s _ _ _ λ _. create_checked-IsServed params _ _ s (not_mode _) i g

  pub m_save_replay-IsServed :
      (params : Option Val) (s : Server) → IsServer s → IsServed w s (m_save_replay y w params s)
  unfolding m_save_replay
  m_save_replay-IsServed params s i = unless-IsServed w s _ _ _ λ l. unless-IsServed w s _ _ _ λ _.
      run_job-IsServed w s _ _ i (not_replay _ _ l, tt)
        (acted _ i (not_replay _ _ l, tt) (IsLate-if w w.saves))

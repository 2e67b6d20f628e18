-- ===== src/Rpc/Served/Steps.antt =====
-- wc3hook/rpc.c: what a step comes to.
use wc3env.Prelude.{
  ℕ, zero, suc, ◌%◌, ◌≤◌, ◌<◌, ◌≡◌, ◌≢◌, ◌⊎◌, inl, inr, refl, ap, sym, ◌∙◌, subst, Bool, true,
  false, Option, none, some, List, [], ◌∷◌, ◌&&◌, not, ◌==◌, if◌then◌else◌, ltb, leb, All,
  All-append, arith, ltb→lt, leb→le, ==→eq,
}
use wc3env.Prelude.Int.{ℤ, pos, negsuc}
use wc3env.Json.{Bytes, codes}
use wc3env.Rpc.{Yyjson, get, slot_of}
use wc3env.Rpc.Parse.{Parsed, Batch, parsed, malformed, no_memory, act_parse}
use wc3env.Rpc.Binary.{Chosen, players, twice, no_mapping, no_slots}
use wc3env.Rpc.Server.{
  in_game, no_mode, stepping, Server, Code, bad_status, error, bad_params, Call, orders, refuse,
  unless, acts_job, World,
}
use wc3env.Rpc.Steps.{
  whole_slot, strtol, duration, and_orders, batches, step_actions, stepped, run_step, give_orders,
  decide, observe_first, step_for, m_step,
}
use wc3env.Rpc.Served.{
  IsServer, IsAllowed, failed, IsServed, refused, noted, acted, unless-IsServed, choose-IsServed,
  in_game_of, stepping_of,
}
use wc3env.Rpc.Served.Create.{IsLate-if}

some_of {ℓ} : {A : Type ℓ} {a b : A} → some a ≡ some b → a ≡ b
some_of {A = A} {a = a} p = ap (λ o. elim o as (λ o. A) [ none ↦ a | some c ↦ c ]) p

pub slot_of-lt : (o : Option ℤ) (p : ℕ) → slot_of o ≡ some p → p < 16
unfolding slot_of
slot_of-lt none p e = absurd (ground arith)
slot_of-lt (some (negsuc n)) p e = absurd (ground arith)
slot_of-lt (some (pos n)) p e = in_range (ltb n 16) refl e
  where
    in_range : (b : Bool) → ltb n 16 ≡ b → (if b then some n else none) ≡ some p → p < 16
    in_range true h q = subst (λ k. k < 16) (some_of q) (ltb→lt n 16 h)
    in_range false h q = absurd (ground arith)

pub not-false : (b : Bool) → not b ≡ false → b ≡ true
not-false true e = refl
not-false false e = absurd (ground arith)

stepping_is_a_mode : stepping ≢ no_mode
stepping_is_a_mode e = absurd (ground arith)

-- A step's duration.
abbrev IsDuration : ℕ → Type 0
IsDuration ms = (0 < ms) × (ms ≤ 60000) × (ms % 25 ≡ 0)

duration-IsDuration : (o : Option ℤ) (ms : ℕ) → duration o ≡ some ms → IsDuration ms
unfolding duration
duration-IsDuration none ms e = absurd (ground arith)
duration-IsDuration (some (negsuc n)) ms e = absurd (ground arith)
duration-IsDuration (some (pos n)) ms e =
    in_range (ltb 0 n) (leb n 60000) (n % 25 == 0) refl refl refl e
  where
    in_range :
        (a b c : Bool)
        → ltb 0 n ≡ a
        → leb n 60000 ≡ b
        → (n % 25 == 0) ≡ c
        → (if a && b && c then some n else none) ≡ some ms
        → IsDuration ms
    in_range true true true h₁ h₂ h₃ q =
        subst IsDuration (some_of q) (ltb→lt 0 n h₁, leb→le n 60000 h₂, ==→eq (n % 25) 0 h₃)
    in_range true true false h₁ h₂ h₃ q = absurd (ground arith)
    in_range true false c h₁ h₂ h₃ q = absurd (ground arith)
    in_range false b c h₁ h₂ h₃ q = absurd (ground arith)

whole_slot-lt : (name : Bytes) (p : ℕ) → whole_slot name ≡ some p → p < 16
unfolding whole_slot
whole_slot-lt name p e = by_number (strtol name) e
  where
    by_number :
        (o : Option (ℤ × Bytes))
        → elim o as (λ o. Option ℕ) [
          | none ↦ none
          | some (n, []) ↦ slot_of (some n)
          | some (n, _) ↦ none
        ]
          ≡ some p
        → p < 16
    by_number none q = absurd (ground arith)
    by_number (some (n, [])) q = slot_of-lt (some n) p q
    by_number (some (n, c ∷ s)) q = absurd (ground arith)

module _ {Val Num : Type 0} (y : Yyjson Val Num) (w : World Num) where
  -- The orders of a step are allowed.
  abbrev AreAllowed : Server → Code ⊎ List (Call Num) → Type 0
  AreAllowed s (inl c) = Unit
  AreAllowed s (inr cs) = All (IsAllowed w s) cs

  and_orders-AreAllowed :
      (s : Server) (p : ℕ) (b : Batch Num) (r : Code ⊎ List (Call Num))
      → ((is : List (Parsed Num)) → IsAllowed w s (orders p is))
      → AreAllowed s r
      → AreAllowed s (and_orders y w p b r)
  and_orders-AreAllowed s p (parsed is) (inl c) h i = tt
  and_orders-AreAllowed s p (parsed is) (inr cs) h i = (h is, i)
  and_orders-AreAllowed s p (malformed k) r h i = tt
  and_orders-AreAllowed s p no_memory r h i = tt

  batches-AreAllowed :
      (s : Server) (room : ℕ) (ms : List (Bytes × Val))
      → s.status ≡ in_game
      → w.is_replay ≡ false
      → AreAllowed s (batches y w room ms)
  unfolding batches
  batches-AreAllowed s room [] g r = tt
  batches-AreAllowed s zero ((name, a) ∷ rest) g r = tt
  batches-AreAllowed s (suc room) ((name, a) ∷ rest) g r =
      by_slot (whole_slot name) refl (batches-AreAllowed s room rest g r)
    where
      by_agent :
          (p : ℕ) (x z : Bool)
          → w.is_agent p ≡ x
          → p < 16
          → AreAllowed s (batches y w room rest)
          → AreAllowed s (
              if x && z
              then and_orders y w p (act_parse y w.far w.allocated (some a)) (batches y w room rest)
              else inl bad_params)
      by_agent p true true e h i =
          and_orders-AreAllowed s p (act_parse y w.far w.allocated (some a)) _ (λ is. (g, r, e, h))
            i
      by_agent p true false e h i = tt
      by_agent p false z e h i = tt

      by_slot :
          (o : Option ℕ)
          → whole_slot name ≡ o
          → AreAllowed s (batches y w room rest)
          → AreAllowed s (elim o as (λ o. Code ⊎ List (Call Num)) [
            | none ↦ inl bad_params
            | some p ↦
                if w.is_agent p && y.is_arr a
                then and_orders y w p
                    (act_parse y w.far w.allocated (some a))
                    (batches y w room rest)
                else inl bad_params
          ])
      by_slot none e i = tt
      by_slot (some p) e i = by_agent p (w.is_agent p) (y.is_arr a) refl (whole_slot-lt name p e) i

  step_actions-AreAllowed :
      (s : Server) (o : Option Val) → s.status ≡ in_game → AreAllowed s (step_actions y w o)
  unfolding step_actions
  step_actions-AreAllowed s none g = tt
  step_actions-AreAllowed s (some a) g = by_tests (y.is_obj a) w.is_replay refl
    where
      by_tests :
          (b r : Bool)
          → w.is_replay ≡ r
          → AreAllowed s (
              if not b
              then inl bad_params
              else if r
              then inl bad_status
              else batches y w 16 (y.members a))
      by_tests false r e = tt
      by_tests true true e = tt
      by_tests true false e = batches-AreAllowed s 16 (y.members a) g e

  -- The state with decisions noted, and players put down.
  abbrev with_last : Server → (ℕ → Bool) → List ℕ → Server
  with_last s last put = record s { seen = record s.seen { has_last = last }; step_players = put }

  stepped-IsServer : (ps : List ℕ) (s : Server) → s.mode ≢ no_mode → IsServer (stepped y w ps s)
  unfolding stepped
  stepped-IsServer ps s m = inr m

  run_step-IsServed :
      (s : Server) (last : ℕ → Bool) (put : List ℕ) (ms : ℕ) (ps : List ℕ) (calls : List (Call Num))
      → s.status ≡ in_game
      → s.mode ≡ stepping
      → IsServer s
      → IsDuration ms
      → All (IsAllowed w s) calls
      → IsServed w s (run_step y w ms ps calls (with_last s last put))
  unfolding run_step
  run_step-IsServed s last put ms ps calls g m i d h =
      choose-IsServed w s _ _ _ (λ _. acted _ i h failed)
        λ _.
          choose-IsServed w s _ _ _
            (λ _. acted _ i (All-append _ calls _ h ((g, m, d.0, d.1, d.2), tt)) failed)
            λ _.
              acted _
                (stepped-IsServer ps (with_last s last put) (λ q. stepping_is_a_mode (sym m ∙ q)))
                (All-append _ calls _ h ((g, m, d.0, d.1, d.2), tt)) (IsLate-if w _)

  give_orders-IsServed :
      (s : Server) (last : ℕ → Bool) (put : List ℕ) (ms : ℕ) (ps : List ℕ)
      (o : Code ⊎ List (Call Num))
      → s.status ≡ in_game
      → s.mode ≡ stepping
      → IsServer s
      → IsDuration ms
      → AreAllowed s o
      → IsServed w s (give_orders y w ms ps (with_last s last put) o)
  unfolding give_orders unless
  give_orders-IsServed s last put ms ps (inl c) g m i d h = noted c last put g
  give_orders-IsServed s last put ms ps (inr []) g m i d h =
      run_step-IsServed s last put ms ps [] g m i d tt
  give_orders-IsServed s last put ms ps (inr (c ∷ cs)) g m i d h =
      by_answer (w.answers acts_job) (w.late acts_job)
    where
      by_answer :
          (a l : Bool)
          → IsServed w s (
              if a
              then run_step y w ms ps (c ∷ cs) (with_last s last put)
              else if l
              then record { state = with_last s last put; calls = c ∷ cs; reply = error bad_status }
              else refuse bad_status (with_last s last put))
      by_answer false false = noted bad_status last put g
      by_answer false true = acted _ i h failed
      by_answer true l = run_step-IsServed s last put ms ps (c ∷ cs) g m i d h

  decide-IsServed :
      (params : Option Val) (ms : ℕ) (ps put : List ℕ) (s : Server)
      → s.status ≡ in_game
      → s.mode ≡ stepping
      → IsServer s
      → IsDuration ms
      → IsServed w s (decide y w params ms ps (record s { step_players = put }))
  unfolding decide unless
  decide-IsServed params ms ps put s g m i d = by_noted _
    where
      by_noted :
          (noted_ : Bool × (ℕ → Bool))
          → IsServed w s (
              if not noted_.0
              then refuse bad_params (with_last s noted_.1 put)
              else give_orders y w ms ps
                  (with_last s noted_.1 put)
                  (step_actions y w (get y params (codes "actions"))))
      by_noted (false, last) = noted bad_params last put g
      by_noted (true, last) =
          give_orders-IsServed s last put ms ps _ g m i d (step_actions-AreAllowed s _ g)

  observe_first-IsServed :
      (params : Option Val) (ms : ℕ) (c : Chosen) (put : List ℕ) (s : Server)
      → s.status ≡ in_game
      → s.mode ≡ stepping
      → IsServer s
      → IsDuration ms
      → IsServed w s (observe_first y w params ms c put s)
  unfolding observe_first
  observe_first-IsServed params ms (players ps) put s g m i d =
      decide-IsServed params ms ps ps s g m i d
  observe_first-IsServed params ms twice put s g m i d = noted bad_params _ put g
  observe_first-IsServed params ms no_mapping put s g m i d = noted bad_params _ put g
  observe_first-IsServed params ms no_slots put s g m i d = refused bad_params

  step_for-IsServed :
      (params : Option Val) (o : Option ℕ) (s : Server)
      → ((ms : ℕ) → o ≡ some ms → IsDuration ms)
      → s.status ≡ in_game
      → s.mode ≡ stepping
      → IsServer s
      → IsServed w s (step_for y w params o s)
  unfolding step_for
  step_for-IsServed params none s d g m i = refused bad_params
  step_for-IsServed params (some ms) s d g m i =
      observe_first-IsServed params ms _ _ s g m i (d ms refl)

  pub m_step-IsServed :
      (params : Option Val) (s : Server) → IsServer s → IsServed w s (m_step y w params s)
  unfolding m_step
  m_step-IsServed params s i = unless-IsServed w s _ _ _ λ g. unless-IsServed w s _ _ _ λ m.
      step_for-IsServed params _ s (duration-IsDuration _) (in_game_of s.status g)
        (stepping_of s.mode m) i

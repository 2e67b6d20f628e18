-- ===== src/Setup/Final.antt =====
-- wc3hook/setup.c: once the match is held its configuration is final.
use wc3env.Prelude.{ℕ, ◌≡◌, refl, ap, true, Option, none, some, List, [], ◌∷◌, arith}
use wc3env.Setup.{
  Setup, players_hook, race_hook, controller_hook, location_hook, start_hook, force_start_hook,
  setup_hold, shuffle_locations,
}
use wc3env.Setup.Starts.{assign_starts, assign_starts-closed}

-- What the game may call.
pub data Call : Type 0 where
  players : Call
  located : Option ℕ → ℕ × ℕ → Call
  start : (slot at : Option ℕ) → Call
  force_start : Call
  hold : Call

pub call : Call → Setup → Setup
call players s = players_hook s
call (located index xy) s = location_hook index xy s
call (start slot at) s = (start_hook slot at s).0
call force_start s = (force_start_hook s).0
call hold s = setup_hold s

pub calls : List Call → Setup → Setup
calls [] s = s
calls (c ∷ cs) s = calls cs (call c s)

shuffle-closed : (s : Setup) → s.closed ≡ true → shuffle_locations s ≡ (s, [])
unfolding shuffle_locations
shuffle-closed s h = rw h refl

start-closed : (slot at : Option ℕ) (s : Setup) → s.closed ≡ true → start_hook slot at s ≡ (s, [])
unfolding start_hook
start-closed none at s h = shuffle-closed s h
start-closed (some p) none s h = shuffle-closed s h
start-closed (some p) (some l) s h = simp h (shuffle-closed s h)

call-closed : (c : Call) (s : Setup) → s.closed ≡ true → call c s ≡ s
unfolding call players_hook location_hook force_start_hook setup_hold
call-closed players s h = rw h refl
call-closed (located index xy) s h = rw h refl
call-closed (start slot at) s h = ap (λ r. r.0) (start-closed slot at s h)
call-closed force_start s h = ap (λ r. r.0) (shuffle-closed s h)
call-closed hold s h = ground arith

calls-same : (cs : List Call) (s : Setup) → s.closed ≡ true → calls cs s ≡ s
unfolding calls
calls-same [] s h = refl
calls-same (c ∷ cs) s h = rw (call-closed c s h) (calls-same cs s h)

race-closed :
    (s : Setup) (p preference : ℕ) → s.closed ≡ true → race_hook s p preference ≡ preference
unfolding race_hook
race-closed s p preference h = rw h refl

controller-closed :
    (s : Setup) (p controller : ℕ) → s.closed ≡ true → controller_hook s p controller ≡ controller
unfolding controller_hook
controller-closed s p controller h = rw h refl

-- The hold closes an enabled configuration and changes nothing else of it.
hold-closes : (s : Setup) → s.enabled ≡ true → setup_hold s ≡ record s { closed = true }
unfolding setup_hold
hold-closes s e = ground arith

-- From the hold of an enabled match on, whatever the game calls then and however often, the configuration
-- stays as it was at the hold, but for being closed: later races and controllers pass through as the
-- game gives them, and no start location is assigned any more.
pub calls-held :
    (cs : List Call) (s : Setup) (p preference controller : ℕ) (start_of : ℕ → Option ℕ)
    → s.enabled ≡ true
    → let after = calls (hold ∷ cs) s in
      (after ≡ record s { closed = true })
      × (race_hook after p preference ≡ preference)
      × (controller_hook after p controller ≡ controller)
      × (assign_starts start_of after ≡ [])
unfolding calls call
calls-held cs s p preference controller start_of e =
    let closed : Setup = record s { closed = true } in
    rw (hold-closes s e, calls-same cs closed refl)
      (
        refl,
        race-closed closed p preference refl,
        controller-closed closed p controller refl,
        assign_starts-closed start_of closed refl,
      )

-- ===== src/Rpc/Steps.antt =====
-- wc3hook/rpc.c: step, with its decisions and its orders.
use wc3env.Prelude.{
  ℕ, zero, suc, ◌+◌, ◌-◌, ◌*◌, ◌%◌, Bool, true, false, Option, none, some, List, [], ◌∷◌, ◌++◌,
  ◌&&◌, ◌||◌, not, ◌==◌, if◌then◌else◌, ltb, leb, length, ◌⊎◌, inl, inr,
}
use wc3env.Prelude.Int.{ℤ, pos, negsuc}
use wc3env.Json.{Bytes, codes}
use wc3env.Rpc.{Yyjson, get, given, items, int, num, slot_of}
use wc3env.Rpc.Parse.{Batch, parsed, malformed, no_memory, act_parse}
use wc3env.Rpc.Binary.{
  update, has, Chosen, players, twice, no_mapping, no_slots, binary_list, binary_job,
}
use wc3env.Rpc.Server.{
  launched, ended, is_in_game, is_stepping, Server, Code, bad_status, bad_params, not_stepping,
  result, error, Call, orders, step, Outcome, refuse, unless, choose, acts_job, World,
}

abbrev is_space : ℕ → Bool
is_space c = c == b' ' || (leb 9 c && leb c 13)

-- The number that the digits at the front of a text are, after `n`, and the text after them.
pub digits_at : ℕ → Bytes → ℕ × Bytes
digits_at n [] = (n, [])
digits_at n (c ∷ s) =
    let rest = digits_at (n * 10 + (c - b'0')) s in
    if leb b'0' c && leb c b'9' then rest else (n, c ∷ s)

abbrev is_digit_at : Bytes → Bool
is_digit_at [] = false
is_digit_at (c ∷ s) = leb b'0' c && leb c b'9'

abbrev signed : Bool → ℕ → ℤ
signed true zero = pos 0
signed true (suc n) = negsuc n
signed false n = pos n

-- `strtol` in base 10: the number at the front of a text, if there is one, and what follows it.
abbrev number_at : Bool → Bytes → Option (ℤ × Bytes)
number_at minus s =
    if is_digit_at s then some (signed minus (digits_at 0 s).0, (digits_at 0 s).1) else none

pub strtol : Bytes → Option (ℤ × Bytes)
strtol [] = none
strtol (c ∷ s) =
    let rest = strtol s in
    if is_space c
    then rest
    else if c == b'-'
    then number_at true s
    else if c == b'+'
    then number_at false s
    else number_at false (c ∷ s)

-- `atoi`: 0 where there is no number.
pub atoi : Bytes → ℤ
atoi s = elim (strtol s) [ none ↦ pos 0 | some (n, rest) ↦ n ]

-- A player's slot that is all of a text.
unfoldable pub whole_slot : Bytes → Option ℕ
whole_slot s = elim (strtol s) [
  | none ↦ none
  | some (n, []) ↦ slot_of (some n)
  | some (n, _) ↦ none
]

-- A step's duration: a multiple of 25 in 25..60000.
unfoldable pub duration : Option ℤ → Option ℕ
duration none = none
duration (some (pos ms)) = if ltb 0 ms && leb ms 60000 && ms % 25 == 0 then some ms else none
duration (some (negsuc ms)) = none

module _ {Val Num : Type 0} (y : Yyjson Val Num) (w : World Num) where
  abbrev has_int : Option Val → Bool
  has_int v = elim (int y v) [ none ↦ false | some n ↦ true ]

  abbrev pub has_num : Option Val → Bool
  has_num v = elim (num y v) [ none ↦ false | some n ↦ true ]

  -- A decision's optional members: ids are integers, x and y numbers given together.
  pub good_decision : Val → Bool
  good_decision d =
      y.is_obj d
      && has_int (get y (some d) (codes "type"))
      && (not (given y (get y (some d) (codes "actor")))
          || has_int (get y (some d) (codes "actor")))
      && (not (given y (get y (some d) (codes "target")))
          || has_int (get y (some d) (codes "target")))
      && (not (given y (get y (some d) (codes "x"))) || has_num (get y (some d) (codes "x")))
      && (not (given y (get y (some d) (codes "y"))) || has_num (get y (some d) (codes "y")))
      && (if given y (get y (some d) (codes "x"))
          then given y (get y (some d) (codes "y"))
          else not (given y (get y (some d) (codes "y"))))

  -- The decisions are noted one by one: whether all are good, and `g_feat_has_last` then.
  pub note_decisions : List (Bytes × Val) → (ℕ → Bool) → Bool × (ℕ → Bool)
  note_decisions [] last = (true, last)
  note_decisions ((name, d) ∷ ds) last = elim (slot_of (some (atoi name))) [
    | none ↦ (false, last)
    | some p ↦
        let rest = note_decisions ds (update last p true) in
        if good_decision d then rest else (false, last)
  ]

  unfoldable pub step_decisions : Option Val → (ℕ → Bool) → Bool × (ℕ → Bool)
  step_decisions none last = (true, last)
  step_decisions (some d) last =
      let rest = note_decisions (y.members d) last in if y.is_obj d then rest else (false, last)

  abbrev pub and_orders : ℕ → Batch Num → (Code ⊎ List (Call Num)) → Code ⊎ List (Call Num)
  and_orders p (parsed is) (inl c) = inl c
  and_orders p (parsed is) (inr cs) = inr (orders p is ∷ cs)
  and_orders p (malformed k) r = inl bad_params
  and_orders p no_memory r = inl bad_status

  -- A player's batch of a step: an agent's slot and a list. `room` is how many batches there may still be.
  unfoldable pub batches : ℕ → List (Bytes × Val) → Code ⊎ List (Call Num)
  batches room [] = inr []
  batches zero ((name, a) ∷ rest) = inl bad_params
  batches (suc room) ((name, a) ∷ rest) = elim (whole_slot name) [
    | none ↦ inl bad_params
    | some p ↦
        let all = and_orders p (act_parse y w.far w.allocated (some a)) (batches room rest) in
        if w.is_agent p && y.is_arr a then all else inl bad_params
  ]

  unfoldable pub step_actions : Option Val → Code ⊎ List (Call Num)
  step_actions none = inr []
  step_actions (some a) =
      let all = batches 16 (y.members a) in
      if not (y.is_obj a) then inl bad_params else if w.is_replay then inl bad_status else all

  -- What a step leaves: the observations are written as it finishes, unless the simulation is closed,
  -- which is what a launched game is in; the match may be over.
  unfoldable pub stepped : List ℕ → Server → Server
  stepped ps s = record s {
    status = if w.closed then launched else if w.game_over then ended else s.status;
    seen = if w.closed || length ps == 0 then s.seen else (binary_job w.writers ps s.seen).seen;
  }

  -- From step_request on: its refusal, the wait, the end.
  unfoldable pub run_step : ℕ → List ℕ → List (Call Num) → Server → Outcome Num
  run_step ms ps calls s =
      let complete = length ps == 0 || (binary_job w.writers ps s.seen).complete in
      choose (w.step_error ms) (record { state = s; calls = calls; reply = error bad_status })
        (choose (not w.finishes)
          (record { state = s; calls = calls ++ (step ms ∷ []); reply = error bad_status })
          (record {
            state = stepped ps s;
            calls = calls ++ (step ms ∷ []);
            reply = if not w.closed && complete then result else error bad_status;
          }))

  -- The orders of a step, if there are any, then the step.
  unfoldable pub give_orders : ℕ → List ℕ → Server → Code ⊎ List (Call Num) → Outcome Num
  give_orders ms ps s (inl c) = refuse c s
  give_orders ms ps s (inr []) = run_step ms ps [] s
  give_orders ms ps s (inr (c ∷ cs)) =
      if w.answers acts_job
      then run_step ms ps (c ∷ cs) s
      else if w.late acts_job
      then record { state = s; calls = c ∷ cs; reply = error bad_status }
      else refuse bad_status s

  -- With the players to observe put down: the decisions, then the orders.
  unfoldable pub decide : Option Val → ℕ → List ℕ → Server → Outcome Num
  decide params ms ps s =
      let noted = step_decisions (get y params (codes "decisions")) s.seen.has_last in
      let s₂ = record s { seen = record s.seen { has_last = noted.1 } } in
      unless (not noted.0) bad_params s₂
        (give_orders ms ps s₂ (step_actions (get y params (codes "actions"))))

  -- The players that `binary_players` puts down: those before the first that is there already.
  pub put_down : List ℕ → List Val → List ℕ
  put_down chosen [] = chosen
  put_down chosen (v ∷ vs) = elim (slot_of (int y (some v))) [
    | none ↦ chosen
    | some p ↦ if has chosen p then chosen else put_down (chosen ++ (p ∷ [])) vs
  ]

  -- With the players to observe, and those that `binary_players` has put down by then, which stay in
  -- `g_step_binary` also if it refuses them.
  unfoldable pub observe_first : Option Val → ℕ → Chosen → List ℕ → Server → Outcome Num
  observe_first params ms (players ps) put s = decide params ms ps (record s { step_players = ps })
  observe_first params ms no_slots put s = refuse bad_params s
  observe_first params ms twice put s = refuse bad_params (record s { step_players = put })
  observe_first params ms no_mapping put s = refuse bad_params (record s { step_players = put })

  unfoldable pub step_for : Option Val → Option ℕ → Server → Outcome Num
  step_for params none s = refuse bad_params s
  step_for params (some ms) s =
      let list = get y params (codes "observe") in
      observe_first params ms (binary_list y w.mapped list) (put_down [] (items y list)) s

  unfoldable pub m_step : Option Val → Server → Outcome Num
  m_step params s = unless (not (is_in_game s.status)) bad_status s (
      unless (not (is_stepping s.mode)) not_stepping s
        (step_for params (duration (int y (get y params (codes "ms")))) s))

-- ===== src/Step/Turns.antt =====
-- wc3hook/step.c: the turns that the offline host sends. `TurnProducer_hook` bounds what a call of
-- the native producer may send, and `TurnTime_hook` writes that time into the packet.
use wc3env.Prelude.{
  ℕ, ◌+◌, ◌-◌, ◌*◌, ◌^◌, ◌%◌, ◌≤◌, ◌<◌, ◌≡◌, ◌≢◌, Bool, true, false, not, ◌&&◌, ◌||◌, List, [], ◌∷◌,
  arith, if◌then◌else◌, ltb, ◌==◌, min, All, length,
}
use wc3env.Prelude.Words.{add32, sub32, long_pos}
use wc3env.Step.{State, game_is_offline}

-- The host thread's own totals: `g_sent_ms` and `g_produce_ms`.
pub record Host : Type 0 where
  pub sent_ms : ℕ
  pub produce_ms : ℕ

abbrev pub max_turn_ms : ℕ
max_turn_ms = 400

-- The host's state, and whether the native producer is called. `packets` is the native packet
-- counter at `host + 0x2e8`.
pub turn_producer : State → ℕ → Host → Host × Bool
turn_producer s packets h =
    let sent = if packets == 0 then 0 else h.sent_ms in
    let left = sub32 s.produce_target sent in
    if s.stepmode && game_is_offline s
    then (if not s.stepping || not (long_pos left)
        then (record { sent_ms = sent; produce_ms = 0 }, false)
        else (
          record {
            sent_ms = sent;
            produce_ms = if ltb max_turn_ms left then max_turn_ms else left;
          },
          true,
        ))
    else (record { sent_ms = sent; produce_ms = 0 }, true)

-- The time written in place of `ms`; only the producer's own call (`from_producer`) counts.
pub turn_time : Bool → ℕ → Host → Host × ℕ
turn_time from_producer ms h =
    let credit = if ms == 0 then 0 else h.produce_ms % 2 ^ 16 in
    let written = if h.produce_ms == 0 then ms else credit in
    if from_producer then (record h { sent_ms = add32 h.sent_ms written }, written) else (h, ms)

-- One round of the host: the producer, and the time of the packet that it builds. `ms` is the time
-- that the native producer would have sent.
pub host_round : State → ℕ → ℕ → Host → Host × ℕ
unfolding turn_producer turn_time
host_round s packets ms h =
    let (h', sends) = turn_producer s packets h in if sends then turn_time true ms h' else (h', 0)

-- A host that may send for a step: it has sent less than the published target, or just that.
pub record IsWithin (s : State) (h : Host) : Type 0 where
  pub in_step_mode : s.stepmode ≡ true
  pub stepping : s.stepping ≡ true
  pub offline : game_is_offline s ≡ true
  pub within : h.sent_ms ≤ s.produce_target
  pub small : s.produce_target < 2 ^ 32
  pub near : s.produce_target < h.sent_ms + 2 ^ 31

-- A round of a step sends what is left to the published target, at most 400 ms of it, counts
-- it, and so never passes the target.
pub host_round_lem :
    (s : State) (packets ms : ℕ) (h : Host)
    → IsWithin s h
    → packets ≢ 0
    → ms ≢ 0
    → let (h', written) = host_round s packets ms h in
      (written ≡ min max_turn_ms (s.produce_target - h.sent_ms))
      × (h'.sent_ms ≡ h.sent_ms + written)
      × IsWithin s h'
unfolding host_round
host_round_lem s packets ms h w p m = ground arith

-- The rounds of one step, with what each of them sends.
pub host_rounds : State → List (ℕ × ℕ) → Host → Host × ℕ
host_rounds s [] h = (h, 0)
host_rounds s ((packets, ms) ∷ rs) h =
    let (h', written) = host_round s packets ms h in
    let (h'', total) = host_rounds s rs h' in (h'', written + total)

-- Rounds with a packet counter that has not restarted, each of a packet that carries time.
abbrev pub IsCounting : ℕ × ℕ → Type 0
IsCounting r = (r.0 ≢ 0) × (r.1 ≢ 0)

-- In a step of an offline game, enough rounds of the host, one for each 400 ms, send exactly what was
-- left to the published target, and the host's total ends at the target. In each of the rounds the packet
-- counter has not restarted, and the packet that is built, one in each round, carries time.
pub host_rounds-total :
    (s : State) (rs : List (ℕ × ℕ)) (h : Host)
    → IsWithin s h
    → All IsCounting rs
    → s.produce_target ≤ h.sent_ms + max_turn_ms * length rs
    → let (h', total) = host_rounds s rs h in
      (h'.sent_ms ≡ s.produce_target) × (h.sent_ms + total ≡ s.produce_target)
unfolding host_rounds
host_rounds-total s [] h w c e = omega arith
host_rounds-total s ((packets, ms) ∷ rs) h w c e =
    let r = host_round_lem s packets ms h w c.0.0 c.0.1 in
    let rest =
      host_rounds-total s rs (host_round s packets ms h).0 r.2 c.1 (omega (arith, r.0, r.1)) in
    omega (arith, r.0, r.1, rest)

-- In step mode the host sends nothing between steps, whatever it is asked for.
pub host_round-idle :
    (s : State) (packets ms : ℕ) (h : Host)
    → s.stepmode ≡ true
    → game_is_offline s ≡ true
    → s.stepping ≡ false
    → (host_round s packets ms h).1 ≡ 0
unfolding host_round
host_round-idle s packets ms h m o g = ground arith

-- ===== src/Events/Gather.antt =====
-- wc3hook/events.c: what a player is given, of the events and orders since it was last given them.
use wc3env.Prelude.{
  ℕ, ◌+◌, ◌-◌, ◌^◌, ◌≤◌, ◌<◌, ◌≡◌, refl, sym, ◌∙◌, ap, false, Option, none, some, List, [], ◌∷◌,
  ◌++◌, arith, if◌then◌else◌, ltb, ◌==◌, Bool-cases, ==→eq, eq→==, subst, length, length-append,
  drop, inl, inr,
}
use wc3env.Prelude.Words.{test_bit}
use wc3env.Events.{
  push, gather, Event, BinOrder, World, Logs, ev_cap, ord_cap, seen_by, built, ev_record,
}
use wc3env.Events.Rings.{IsCapacity, IsLog, push-IsLog, gather-IsLog}
use wc3env.Events.Records.{BinEvent, event_record}
use native.Mathlib.Nat.{zero-div}
use mathlib.Core.Option
use mathlib.Core.List.{append_assoc, append-nil}

pub ev_cap-IsCapacity : IsCapacity ev_cap
ev_cap-IsCapacity = record {
  positive = omega arith;
  within = omega arith;
  apart = λ a b h l e. omega arith;
}

pub ord_cap-IsCapacity : IsCapacity ord_cap
ord_cap-IsCapacity = record {
  positive = omega arith;
  within = omega arith;
  apart = λ a b h l e. omega arith;
}

-- The records that the player may have, of the entries given.
pub records : ℕ → List Event → List BinEvent
records p [] = []
records p (e ∷ es) =
    let rest = records p es in elim (event_record e p) [ none ↦ rest | some r ↦ r ∷ rest ]

-- The records, the number lost, and the log with that ring's cursor moved.
pub events_gather : ℕ → Logs → Option (List BinEvent) × ℕ × Logs
events_gather p l =
    let g = gather ev_cap (l.ev p) in
    (Option.map (records p) g.0, g.1, record l { ev = λ q. if q == p then g.2 else l.ev q })

pub orders_gather : ℕ → Logs → Option (List BinOrder) × ℕ × Logs
orders_gather p l =
    let g = gather ord_cap (l.ord p) in
    (g.0, g.1, record l { ord = λ q. if q == p then g.2 else l.ord q })

-- One call of `ev_record`, on a unit, with the world as it is then.
pub record Call (Object : Type 0) : Type 0 where
  pub world : World Object
  pub id : ℕ
  pub unit : Object
  pub other : Option Object
  pub item : Option Object
  pub argument : ℕ

test_bit_zero : (p : ℕ) → test_bit 0 p ≡ false
test_bit_zero p = rw (zero-div (2 ^ p)) refl

module _ {Object : Type 0} where
  pub fire_all : List (Call Object) → Logs → Logs
  fire_all [] l = l
  fire_all (c ∷ cs) l =
      fire_all cs (ev_record c.world c.id (some c.unit) c.other c.item c.argument l)

  abbrev event_of : ℕ → Call Object → Event
  event_of players c = built c.world players c.id c.unit c.other c.item c.argument

  -- The events among them that `p` sees as they happen.
  pub seen : ℕ → ℕ → List (Call Object) → List Event
  seen players p [] = []
  seen players p (c ∷ cs) =
      let rest = seen players p cs in
      let e = event_of players c in if e.seen p then e ∷ rest else rest

seen-nil : (O : Type 0) (m p : ℕ) (xs : List Event) → xs ++ seen {Object = O} m p [] ≡ xs
unfolding seen
seen-nil O m p xs = append-nil xs

module _ {Object : Type 0} where
  nobody :
      (c : Call Object) (l : Logs) (p : ℕ) → l.players ≡ 0 → (event_of l.players c).seen p ≡ false
  unfolding built seen_by
  nobody c l p e = elim (Bool-cases (ltb p 16)) [
    | inl i ↦ simp (e, test_bit_zero p, i) refl
    | inr i ↦ simp i refl
  ]

  -- An event enters exactly the rings of those who see it.
  ev_record-ev :
      (c : Call Object) (l : Logs) (p : ℕ)
      → (ev_record c.world c.id (some c.unit) c.other c.item c.argument l).ev p ≡ (
          if (event_of l.players c).seen p
          then push ev_cap (event_of l.players c) (l.ev p)
          else l.ev p)
  unfolding ev_record
  ev_record-ev c l p = elim (Bool-cases (l.players == 0)) [
    | inl e ↦ simp (e, nobody c l p (==→eq l.players 0 e)) refl
    | inr e ↦ simp e refl
  ]

  ev_record-players :
      (c : Call Object) (l : Logs)
      → (ev_record c.world c.id (some c.unit) c.other c.item c.argument l).players ≡ l.players
  unfolding ev_record
  ev_record-players c l = elim (Bool-cases (l.players == 0)) [
    | inl e ↦ simp e refl
    | inr e ↦ simp e refl
  ]

  seen-cons :
      (m p : ℕ) (c : Call Object) (cs : List (Call Object))
      → seen m p (c ∷ cs) ≡ seen m p (c ∷ []) ++ seen m p cs
  unfolding seen
  seen-cons m p c cs = elim (Bool-cases ((event_of m c).seen p)) [
    | inl e ↦ rw e refl
    | inr e ↦ rw e refl
  ]

  seen-length : (m p : ℕ) (c : Call Object) → length (seen m p (c ∷ [])) ≤ 1
  unfolding seen
  seen-length m p c = ground arith

  ev_record-IsLog :
      (c : Call Object) (l : Logs) (p : ℕ) (xs : List Event)
      → IsLog ev_cap ev_cap-IsCapacity (l.ev p) xs
      → length xs + 1 < 2 ^ 32
      → IsLog ev_cap ev_cap-IsCapacity
          ((ev_record c.world c.id (some c.unit) c.other c.item c.argument l).ev p)
          (xs ++ seen l.players p (c ∷ []))
  unfolding seen
  ev_record-IsLog c l p xs h few = elim (Bool-cases ((event_of l.players c).seen p)) [
    | inl e ↦
        rw (ev_record-ev c l p, e)
          (push-IsLog ev_cap ev_cap-IsCapacity (event_of l.players c) (l.ev p) xs few h)
    | inr e ↦ rw (ev_record-ev c l p, e, append-nil xs) h
  ]

  fire_all-IsLog :
      (cs : List (Call Object)) (l : Logs) (m p : ℕ) (xs : List Event)
      → l.players ≡ m
      → IsLog ev_cap ev_cap-IsCapacity (l.ev p) xs
      → length xs + length cs < 2 ^ 32
      → IsLog ev_cap ev_cap-IsCapacity ((fire_all cs l).ev p) (xs ++ seen m p cs)
  unfolding fire_all
  fire_all-IsLog [] l m p xs e h few =
      subst (IsLog ev_cap ev_cap-IsCapacity (l.ev p)) (sym (seen-nil Object m p xs)) h
  fire_all-IsLog (c ∷ cs) l m p xs e h few =
      rw (seen-cons m p c cs, sym (append_assoc xs (seen m p (c ∷ [])) (seen m p cs)))
        (fire_all-IsLog cs _ m p (xs ++ seen m p (c ∷ [])) (ev_record-players c l ∙ e)
          (subst
            (λ n.
              IsLog ev_cap ev_cap-IsCapacity
                ((ev_record c.world c.id (some c.unit) c.other c.item c.argument l).ev p)
                (xs ++ seen n p (c ∷ [])))
            e (ev_record-IsLog c l p xs h (omega arith)))
          (omega (arith, length-append xs (seen m p (c ∷ [])), seen-length m p c)))

  -- Whatever events fire, hidden ones among them, and fewer than 2 ^ 32 since it was last given any,
  -- a player is next given the records of those that it saw since then, in order, but for the oldest
  -- past 1024, which are counted.
  pub events_gather-seen :
      (cs : List (Call Object)) (l : Logs) (p : ℕ) (xs : List Event)
      → IsLog ev_cap ev_cap-IsCapacity (l.ev p) xs
      → length xs + length cs < 2 ^ 32
      → let ys = xs ++ seen l.players p cs in
        ((events_gather p (fire_all cs l)).0 ≡ some (records p (drop (length ys - ev_cap) ys)))
        × ((events_gather p (fire_all cs l)).1 ≡ length ys - ev_cap)
        × IsLog ev_cap ev_cap-IsCapacity ((events_gather p (fire_all cs l)).2.ev p) []
  unfolding events_gather
  events_gather-seen cs l p xs h few =
      let ys = xs ++ seen l.players p cs in
      let g =
        gather-IsLog ev_cap ev_cap-IsCapacity ((fire_all cs l).ev p) ys
          (fire_all-IsLog cs l l.players p xs refl h few) in
      (ap (Option.map (records p)) g.0, g.1, rw (eq→== p p refl) g.2)

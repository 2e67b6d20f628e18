-- ===== src/Act/Apply/Fits.antt =====
-- Encoding an order never aborts and never writes past an array, whatever the order is and even where
-- memory runs out.
use wc3env.Prelude.{
  ℕ, ◌+◌, ◌≤◌, ◌≡◌, inl, inr, sym, ◌∙◌, ap, Bool, true, false, Option, none, some, List, [], ◌∷◌,
  ◌++◌, if◌then◌else◌, length, length-append, All-append, arith, Option-cases,
}
use wc3env.Act.{Bytes, ActQueue, enqueue_all, enqueue_all-cons, enqueue_all-nil}
use wc3env.Act.Encode.{
  Object, select_unit, select_unit-Fit, rec_order, rec_order_fits, rec_point_fits,
  rec_use_item_at_fits, rec_use_item_fits, rec_drop_item_fits, Fit,
}
use wc3env.Act.Game.{
  Reason, Command, ActItem, Game, fourcc, move, stop, attack, smart, harvest, build, train,
  research, learn, cast, use_item, drop_item, revive, select, buy, other,
}
use wc3env.Act.Apply.{
  Decision, refuse, issue, order_after, command_of, at_target, typed, use_of, drop_of, buy_from,
  slot_item,
}
use mathlib.Core.List.{append_assoc, append-nil}

pub enqueue_all_lem :
    (bs : List Bytes) (q : ActQueue)
    → Fit bs
    → length q.records + length bs ≤ q.capacity
    → enqueue_all bs q ≡ some (record q { records = q.records ++ bs })
enqueue_all_lem [] q f h =
    enqueue_all-nil q ∙ ap (λ rs. some (record q { records = rs })) (sym (append-nil q.records))
enqueue_all_lem (b ∷ bs) q f h = simp (enqueue_all-cons b bs q f.0 (omega arith)) (
    enqueue_all_lem bs (record q { records = q.records ++ b ∷ [] }) f.1
      (omega (arith, length-append q.records (b ∷ [])))
    ∙ ap (λ rs. some (record q { records = rs })) (append_assoc q.records (b ∷ []) bs))

-- A decision whose records all fit, in the room that is reserved for them.
pub data Small : Decision → Type 0 where
  refused : (r : Reason) → Small (refuse r)
  issued :
      (bs : List Bytes) (selected : ℕ × ℕ) → Fit bs → length bs ≤ 10 → Small (issue bs selected)

pub order_after-Small :
    (u : Object) (previous : ℕ × ℕ) (r : Bytes) → length r ≤ 48 → Small (order_after u previous r)
order_after-Small u previous r h =
    let f = select_unit-Fit u previous in
    let s = select_unit u previous in
    issued (s.0 ++ r ∷ []) s.1 (All-append _ s.0 (r ∷ []) f.0 (h, tt))
      (omega (arith, length-append s.0 (r ∷ []), f.1))

if-Small : (b : Bool) (d : Decision) (r : Reason) → Small d → Small (if b then refuse r else d)
if-Small true d r h = refused r
if-Small false d r h = h

if-Small' : (b : Bool) (d : Decision) (r : Reason) → Small d → Small (if b then d else refuse r)
if-Small' true d r h = h
if-Small' false d r h = refused r

if-both : (b : Bool) (d e : Decision) → Small d → Small e → Small (if b then d else e)
if-both true d e h k = h
if-both false d e h k = k

module _ (g : Game) (player : ℕ) (a : ActItem) (u : Object) (previous : ℕ × ℕ) where
  at_target-Small :
      (flags order : ℕ) (t : Option Object) → Small (at_target g player a u previous flags order t)
  unfolding at_target
  at_target-Small flags order t = order_after-Small u previous _ (rec_point_fits flags order _ _ t)

  typed-Small : (flags : ℕ) → Small (typed g player a u previous flags)
  unfolding typed
  typed-Small flags =
      if-Small _ _ _ (order_after-Small u previous _ (rec_order_fits flags (fourcc a.type_id)))

  use_of-Small : (t : Option Object) → Small (use_of g player a u previous t)
  unfolding use_of
  use_of-Small t = elim (Option-cases (slot_item g player a u previous)) [
    | inl e ↦ rw (use_of, e) (refused _)
    | inr (it, e) ↦
        rw (use_of, e)
          (if-both _ _ _ (order_after-Small u previous _ (rec_use_item_at_fits _ it _ _ _ t))
            (order_after-Small u previous _ (rec_use_item_fits _ it _)))
  ]

  drop_of-Small : (t : Option Object) → Small (drop_of g player a u previous t)
  unfolding drop_of
  drop_of-Small t = elim (Option-cases (slot_item g player a u previous)) [
    | inl e ↦ rw (drop_of, e) (refused _)
    | inr (it, e) ↦
        rw (drop_of, e)
          (if-both _ _ _ (order_after-Small u previous _ (rec_drop_item_fits it _ _ _ t))
            (order_after-Small u previous _ (rec_drop_item_fits it _ _ _ t)))
  ]

  buy_from-issued :
      (shop : Object)
      → let s = select_unit u previous in
        let s' = select_unit shop s.1 in
        Small (issue (s.0 ++ s'.0 ++ rec_order 0 (fourcc a.item_type) ∷ []) s'.1)
  buy_from-issued shop =
      let s = select_unit u previous in
      let s' = select_unit shop s.1 in
      let f = select_unit-Fit u previous in
      let f' = select_unit-Fit shop s.1 in
      let last = rec_order 0 (fourcc a.item_type) ∷ [] in
      issued _ _
        (All-append _ (s.0 ++ s'.0) last (All-append _ s.0 s'.0 f.0 f'.0) (rec_order_fits _ _, tt))
        (omega (arith, length-append (s.0 ++ s'.0) last, length-append s.0 s'.0, f.1, f'.1))

  buy_from-Small : Small (buy_from g player a u previous)
  unfolding buy_from
  buy_from-Small = elim (Option-cases (g.unit_by_rpc_id a.shop)) [
    | inl e ↦ rw (buy_from, e) (refused _)
    | inr (shop, e) ↦ rw (buy_from, e) (if-Small _ _ _ (buy_from-issued shop))
  ]

  pub command_of-Small :
      (c : Command) (t : Option Object) → Small (command_of g player a u previous c t)
  unfolding command_of
  command_of-Small move t =
      if-Small' _ _ _ (order_after-Small u previous _ (rec_point_fits _ _ _ _ none))
  command_of-Small stop t = order_after-Small u previous _ (rec_order_fits _ _)
  command_of-Small attack t = if-Small _ _ _ (at_target-Small _ _ t)
  command_of-Small smart t = if-Small' _ _ _ (at_target-Small _ _ t)
  command_of-Small harvest t = if-Small _ _ _ (at_target-Small _ _ t)
  command_of-Small build t = refused _
  command_of-Small train t = typed-Small 0
  command_of-Small research t = typed-Small 0
  command_of-Small learn t = typed-Small 0x42
  command_of-Small cast t =
      if-Small _ _ _ (
        if-both _ _ _ (at_target-Small _ _ t) (order_after-Small u previous _ (rec_order_fits _ _)))
  command_of-Small use_item t = use_of-Small t
  command_of-Small drop_item t = drop_of-Small t
  command_of-Small revive t = if-Small' _ _ _ (at_target-Small _ _ t)
  command_of-Small select t =
      let f = select_unit-Fit u previous in issued _ _ f.0 (omega (arith, f.1))
  command_of-Small buy t = buy_from-Small
  command_of-Small other t = refused _

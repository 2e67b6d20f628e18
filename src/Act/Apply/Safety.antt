-- ===== src/Act/Apply/Safety.antt =====
-- Encoding an order never aborts and never writes past an array, whatever the order is and even where
-- memory runs out.
use wc3env.Prelude.{
  ℕ, suc, ◌+◌, ◌≤◌, ◌≡◌, inl, inr, refl, sym, ap, Option, none, some, List, [], ◌∷◌, if◌then◌else◌,
  length, arith, Bool-cases, Option-cases, subst,
}
use wc3env.Act.{ActQueue, act_reserve, act_reserve-IsReserved, IsQueue}
use wc3env.Act.Encode.{Object, Fit}
use wc3env.Act.Game.{
  Reason, ActItem, Game, forget_queued_sites, forget-length, Encoder, queue_full, bad_args,
  unknown_unit, not_yours,
}
use wc3env.Act.Apply.{
  Decision, carry_out, issue_to, aim, act_item, act_items, act_apply, is_ok, Target, untargeted,
  bad, target, owned_by,
}
use wc3env.Act.Apply.Decided.{
  IsSafe, IsGame, IsDone, done, carry_out-IsDone, IsDecided, decide-IsDecided,
}

reserved-IsSafe :
    (g : Game) (e : Encoder)
    → IsSafe e
    → IsSafe (record e { queue = (act_reserve g.realloc e.queue).1 })
reserved-IsSafe g e s =
    let r = act_reserve-IsReserved g.realloc e.queue s.queue in
    record {
      queue = r.queue;
      fit = subst Fit (sym r.records) s.fit;
      queued = s.queued;
      pending = s.pending;
    }

decided-IsDone :
    (d : Decision × Encoder) (q : ActQueue)
    → IsDecided d q
    → IsQueue q
    → Fit q.records
    → length q.records + 10 ≤ q.capacity
    → IsDone (carry_out d)
decided-IsDone (d, e) q h s f room =
    carry_out-IsDone d e h.small
      (record {
        queue = subst IsQueue (sym h.queue) s;
        fit = subst (λ (p : ActQueue). Fit p.records) (sym h.queue) f;
        queued = h.queued;
        pending = h.pending;
      })
      (subst (λ (p : ActQueue). length p.records + 10 ≤ p.capacity) (sym h.queue) room)

issue_to-IsDone :
    (g : Game) (player : ℕ) (a : ActItem) (u : Object) (t : Option Object) (e : Encoder)
    → IsGame g
    → IsSafe e
    → IsDone (issue_to g player a u t e)
unfolding issue_to
issue_to-IsDone g player a u t e h s =
    let r = act_reserve-IsReserved g.realloc e.queue s.queue in
    let e' : Encoder = record e { queue = (act_reserve g.realloc e.queue).1 } in
    let s' = reserved-IsSafe g e s in
    elim (Bool-cases (act_reserve g.realloc e.queue).0) [
      | inl b ↦
          rw (issue_to, b)
            (decided-IsDone _ e'.queue (decide-IsDecided g player a u e.previous h t e' s') s'.queue
              s'.fit (ground (arith, r.free, ap length r.records)))
      | inr b ↦ rw (issue_to, b) (done queue_full e' s')
    ]

aim-IsDone :
    (g : Game) (player : ℕ) (a : ActItem) (u : Object) (t : Target) (e : Encoder)
    → IsGame g
    → IsSafe e
    → IsDone (aim g player a u t e)
unfolding aim
aim-IsDone g player a u untargeted e h s = issue_to-IsDone g player a u none e h s
aim-IsDone g player a u bad e h s = done bad_args e s
aim-IsDone g player a u (target t) e h s = issue_to-IsDone g player a u (some t) e h s

forgotten-IsSafe :
    (a : ActItem) (e : Encoder)
    → IsSafe e
    → IsSafe (if a.queued then e else record e { queued = forget_queued_sites a.unit_id e.queued })
forgotten-IsSafe a e s = elim (Bool-cases a.queued) [
  | inl b ↦ rw b s
  | inr b ↦ rw b (record {
    queue = s.queue;
    fit = s.fit;
    queued = omega (arith, forget-length a.unit_id e.queued, s.queued);
    pending = s.pending;
  })
]

act_item-IsDone :
    (g : Game) (player : ℕ) (a : ActItem) (e : Encoder)
    → IsGame g
    → IsSafe e
    → IsDone (act_item g player a e)
unfolding act_item
act_item-IsDone g player a e h s = elim (Option-cases (g.unit_by_rpc_id a.unit_id)) [
  | inl n ↦ rw (act_item, n) (done unknown_unit e s)
  | inr (u, n) ↦ elim (Bool-cases (owned_by player (g.unit_owner u))) [
    | inl o ↦ rw (act_item, n, o) (aim-IsDone g player a u _ _ h (forgotten-IsSafe a e s))
    | inr o ↦ rw (act_item, n, o) (done not_yours _ (forgotten-IsSafe a e s))
  ]
]

-- A job's result: a verdict for each of its `n` items, and a state that is safe.
pub data AreDone (n : ℕ) : Option (List Reason × Encoder) → Type 0 where
  all_done : (rs : List Reason) (e : Encoder) → length rs ≡ n → IsSafe e → AreDone n (some (rs, e))

cons-AreDone :
    (n : ℕ) (r : Reason) (o : Option (List Reason × Encoder))
    → AreDone n o
    → AreDone (suc n) (elim o [ none ↦ none | some (rs, e) ↦ some (r ∷ rs, e) ])
cons-AreDone n r _ (all_done rs e l s) = all_done (r ∷ rs) e (ap suc l) s

module _ (g : Game) (player : ℕ) (h : IsGame g) where
  then-AreDone :
      (items : List ActItem) (o : Option (Reason × Encoder))
      → ((e : Encoder) → IsSafe e → AreDone (length items) (act_items g player items e))
      → IsDone o
      → AreDone (suc (length items)) (elim o [
        | none ↦ none
        | some (r, e) ↦ elim (act_items g player items e) [
          | none ↦ none
          | some (rs, e') ↦ some (r ∷ rs, e')
        ]
      ])
  then-AreDone items _ rest (done r e s) = cons-AreDone _ r _ (rest e s)

  act_items-AreDone :
      (items : List ActItem) (e : Encoder)
      → IsSafe e
      → AreDone (length items) (act_items g player items e)
  unfolding act_items
  act_items-AreDone [] e s = all_done [] e refl s
  act_items-AreDone (a ∷ as') e s =
      let rest : (e : Encoder) → IsSafe e → AreDone (length as') (act_items g player as' e) =
        λ e s. act_items-AreDone as' e s in
      elim (Bool-cases (is_ok a.reason)) [
        | inl b ↦ rw (act_items, b) (then-AreDone as' _ rest (act_item-IsDone g player a e h s))
        | inr b ↦ rw (act_items, b) (cons-AreDone _ a.reason _ (rest e s))
      ]

  -- From a safe state, and where the game lists at most 128 orders to build of a player, every job
  -- of orders is carried out, whatever its items are and even where memory runs out: each item gets
  -- a verdict, no record is longer than its place, and no array is written past its end.
  pub act_apply-AreDone :
      (items : List ActItem) (e : Encoder)
      → IsSafe e
      → AreDone (length items) (act_apply g player items e)
  unfolding act_apply
  act_apply-AreDone items e s =
      act_items-AreDone items (record e { pending = none })
        (record { queue = s.queue; fit = s.fit; queued = s.queued; pending = tt })

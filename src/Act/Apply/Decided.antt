-- ===== src/Act/Apply/Decided.antt =====
-- wc3hook/act.c: what an order comes to keeps the sites within their arrays.
use wc3env.Prelude.{
  ℕ, ◌+◌, ◌≤◌, ◌≡◌, inl, inr, refl, Bool, true, false, ◌&&◌, Option, none, some, List, [], ◌∷◌,
  ◌++◌, if◌then◌else◌, ltb, length, length-append, All-append, arith, Option-cases, subst,
}
use wc3env.Act.{ActQueue, IsQueue}
use wc3env.Act.Encode.{Object, Fit, rec_point_fits}
use wc3env.Act.Game.{
  Reason, ActItem, PendingSite, QueuedSite, Placed, found, nowhere, failed, Game, add-length,
  Encoder, ok, queue_full, bad_args, no_build_site,
}
use wc3env.Act.Apply.{
  Decision, refuse, issue, known_sites, build_at, build_of, decide, carry_out, is_build,
}
use wc3env.Act.Apply.Fits.{
  enqueue_all_lem, Small, refused, issued, command_of-Small, order_after-Small,
}

abbrev pub IsBounded : Option (List PendingSite) → Type 0
IsBounded none = Unit
IsBounded (some ps) = length ps ≤ 256

-- The arrays hold what stands in them, each record its place, and the room for the records is none or
-- at least that of one order, of fewer than 2 ^ 32 bytes.
pub record IsSafe (e : Encoder) : Type 0 where
  pub queue : IsQueue e.queue
  pub fit : Fit e.queue.records
  pub queued : length e.queued ≤ 64
  pub pending : IsBounded e.pending

-- The workers' orders to build, of which no more are asked for.
pub record IsGame (g : Game) : Type 0 where
  pub few : (player : ℕ) → length (g.placement_pending player) ≤ 128

-- A call's result: a verdict, and a state that is safe.
pub data IsDone : Option (Reason × Encoder) → Type 0 where
  done : (r : Reason) (e : Encoder) → IsSafe e → IsDone (some (r, e))

pub carry_out-IsDone :
    (d : Decision) (e : Encoder)
    → Small d
    → IsSafe e
    → length e.queue.records + 10 ≤ e.queue.capacity
    → IsDone (carry_out (d, e))
unfolding carry_out
carry_out-IsDone (refuse r) e _ s room = done r e s
carry_out-IsDone (issue bs selected) e (issued _ _ f n) s room =
    rw (carry_out, enqueue_all_lem bs e.queue f (omega arith))
      (done ok _ (record {
        queue = record {
          room = s.queue.room;
          within = omega (arith, length-append e.queue.records bs);
          sized = s.queue.sized;
        };
        fit = All-append _ e.queue.records bs s.fit f;
        queued = s.queued;
        pending = s.pending;
      }))

-- A decision to build leaves the arrays of sites within their bounds.
pub record IsDecided (d : Decision × Encoder) (q : ActQueue) : Type 0 where
  pub small : Small d.0
  pub queue : d.1.queue ≡ q
  pub queued : length d.1.queued ≤ 64
  pub pending : IsBounded d.1.pending

snoc_below :
    {A : Type 0} (n : ℕ) (xs : List A) (x : A)
    → length xs ≤ n
    → length (if ltb (length xs) n then xs ++ x ∷ [] else xs) ≤ n
snoc_below n xs x h = ground (arith, length-append xs (x ∷ []))

snoc_if :
    {A : Type 0} (b : Bool) (n : ℕ) (xs : List A) (x : A)
    → length xs ≤ n
    → length (if b && ltb (length xs) n then xs ++ x ∷ [] else xs) ≤ n
snoc_if b n xs x h = ground (arith, length-append xs (x ∷ []))

pick-IsDecided :
    {q : ActQueue} (b : Bool) {c d : Decision × Encoder}
    → IsDecided c q
    → IsDecided d q
    → IsDecided (if b then c else d) q
pick-IsDecided true h k = h
pick-IsDecided false h k = k

module _ (g : Game) (player : ℕ) (a : ActItem) (u : Object) (previous : ℕ × ℕ) (h : IsGame g) where
  known_sites-length :
      (e : Encoder)
      → IsSafe e
      → (length (known_sites g player a u previous e).0 ≤ 256)
        × (length (known_sites g player a u previous e).1 ≤ 64)
  unfolding known_sites
  known_sites-length e s = elim (Option-cases e.pending) [
    | inl n ↦
        let l =
          add-length g (g.placement_pending player) 192 e.queued (omega (arith, h.few player)) in
        rw (known_sites, n) (omega (arith, l.0), omega (arith, l.1, s.queued))
    | inr (ps, p) ↦ rw (known_sites, p) (subst IsBounded p s.pending, s.queued)
  ]

  build_at-IsDecided :
      (t : Option Object) (p : Placed) (ps : List PendingSite) (qs : List QueuedSite) (e : Encoder)
      → length ps ≤ 256
      → length qs ≤ 64
      → IsDecided (build_at g player a u previous t p ps qs e) e.queue
  unfolding build_at
  build_at-IsDecided t nowhere ps qs e l m = record {
    small = refused no_build_site;
    queue = refl;
    queued = m;
    pending = l;
  }
  build_at-IsDecided t failed ps qs e l m = record {
    small = refused queue_full;
    queue = refl;
    queued = m;
    pending = l;
  }
  build_at-IsDecided t (found x y) ps qs e l m = record {
    small = order_after-Small u previous _ (rec_point_fits _ _ x y t);
    queue = refl;
    queued = snoc_if _ 64 qs _ m;
    pending = snoc_below 256 ps _ l;
  }

  build_of-IsDecided :
      (t : Option Object) (e : Encoder)
      → IsSafe e
      → IsDecided (build_of g player a u previous t e) e.queue
  unfolding build_of
  build_of-IsDecided t e s =
      let k = known_sites-length e s in
      pick-IsDecided _
        (record { small = refused bad_args; queue = refl; queued = s.queued; pending = s.pending })
        (build_at-IsDecided t _ _ _ e k.0 k.1)

  pub decide-IsDecided :
      (t : Option Object) (e : Encoder)
      → IsSafe e
      → IsDecided (decide g player a u previous t e) e.queue
  unfolding decide
  decide-IsDecided t e s = pick-IsDecided (is_build a.command) (build_of-IsDecided t e s) (record {
    small = command_of-Small g player a u previous a.command t;
    queue = refl;
    queued = s.queued;
    pending = s.pending;
  })

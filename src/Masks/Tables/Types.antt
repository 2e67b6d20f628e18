-- ===== src/Masks/Tables/Types.antt =====
-- wc3hook/masks.c: the loop over the types, as plain listings.
use mathlib.Core.List.{append_assoc, append-nil}
use wc3env.Prelude.{
  ℕ, zero, suc, ◌+◌, ◌-◌, ◌*◌, ◌≤◌, ◌≡◌, inl, inr, refl, sym, ap, subst, ◌∙◌, Bool, true, false,
  not, ◌&&◌, ◌||◌, Option, none, some, List, [], ◌∷◌, ◌++◌, if◌then◌else◌, ltb, ltb→lt, ltb→ge,
  ◌==◌, ==→eq, ==→ne, arith, Bool-cases, length, length-append, take, take_all, take-append_full,
  take-append-take, length-take,
}
use wc3env.Masks.Allowed.{bit_at}
use wc3env.Masks.Decide.{Kind, Action, n_args, max_actor, ArgRows}
use wc3env.Masks.Tables.{
  Tables, argument_bits, actors_from, is_noop, with_bits, Parts, put_actors, add_actors, add_type,
  add_types,
}

-- The actor masks of a type whose arguments count: one for each argument, in order, that is allowed
-- and that some row can do.
pub by_argument : ℕ → (ℕ → ℕ) → ArgRows → ℕ → ℕ → List (ℕ × (ℕ → ℕ))
by_argument key bits m a zero = []
by_argument key bits m a (suc left) =
    let rest = by_argument key bits m (suc a) left in
    if bit_at bits a && m.touched a then (key + a, m.rows a) ∷ rest else rest

actors_from-take :
    (key : ℕ) (bits : ℕ → ℕ) (m : ArgRows) (a left : ℕ) (acc : List (ℕ × (ℕ → ℕ)))
    → length acc ≤ max_actor
    → actors_from key bits m a left acc ≡ take max_actor (acc ++ by_argument key bits m a left)
unfolding actors_from by_argument
actors_from-take key bits m a zero acc h =
    sym (ap (take max_actor) (append-nil acc) ∙ take_all max_actor acc h)
actors_from-take key bits m a (suc left) acc h = elim (Bool-cases (ltb (length acc) max_actor)) [
  | inr l ↦
      rw l
        (sym (take-append_full max_actor acc _ (omega (arith, h, ltb→ge (length acc) max_actor l))))
  | inl l ↦ elim (Bool-cases (bit_at bits a && m.touched a)) [
    | inl b ↦ rw l (
        rw b (
          actors_from-take key bits m (suc a) left (acc ++ (key + a, m.rows a) ∷ []) (
            omega (
              arith,
              length-append {0} acc ((key + a, m.rows a) ∷ []),
              ltb→lt (length acc) max_actor l,
            ))
          ∙ ap (take max_actor)
              (append_assoc acc ((key + a, m.rows a) ∷ []) (by_argument key bits m (suc a) left))))
    | inr b ↦ rw l (rw b (actors_from-take key bits m (suc a) left acc h))
  ]
]

module _ (p : Parts) where
  -- The types that are allowed, without noop.
  abbrev pub is_on : Action → Bool
  is_on t = p.mask t.kind && not (is_noop t.kind)

  -- The actor masks of one type.
  pub listed : Bool → Bool → Option (ℕ → ℕ) → ℕ → Kind → List (ℕ × (ℕ → ℕ))
  listed false any bits k kind = []
  listed true true bits k kind = (k * n_args, p.acting kind) ∷ []
  listed true false none k kind = []
  listed true false (some bits) k kind =
      by_argument (k * n_args) bits (p.by_group kind) 1 (n_args - 1)

  abbrev pub actors_of : ℕ → Action → List (ℕ × (ℕ → ℕ))
  actors_of k t = listed t.has_actor t.any_argument (argument_bits t (p.bits t.kind)) k t.kind

  pub all_actors : ℕ → List Action → List (ℕ × (ℕ → ℕ))
  all_actors k [] = []
  all_actors k (t ∷ ts) =
      let rest = all_actors (suc k) ts in if is_on t then actors_of k t ++ rest else rest

  pub all_arguments : ℕ → List Action → List (ℕ × (ℕ → ℕ))
  all_arguments k [] = []
  all_arguments k (t ∷ ts) =
      let rest = all_arguments (suc k) ts in
      if is_on t then with_bits k (argument_bits t (p.bits t.kind)) [] ++ rest else rest

  unchanged : (acc : List (ℕ × (ℕ → ℕ))) → length acc ≤ max_actor → acc ≡ take max_actor (acc ++ [])
  unchanged acc h = sym (ap (take max_actor) (append-nil acc) ∙ take_all max_actor acc h)

  put_actors-take :
      (has any : Bool) (o : Option (ℕ → ℕ)) (k : ℕ) (kind : Kind) (acc : List (ℕ × (ℕ → ℕ)))
      → length acc ≤ max_actor
      → put_actors p has any o k kind acc ≡ take max_actor (acc ++ listed has any o k kind)
  unfolding put_actors listed
  put_actors-take false any o k kind acc h = unchanged acc h
  put_actors-take true true o k kind acc h = elim (Bool-cases (length acc == max_actor)) [
    | inl l ↦ rw l (sym (take-append_full max_actor acc _ (==→eq (length acc) max_actor l)))
    | inr l ↦ rw l (
        sym (
          take_all max_actor _ (
            omega (
              arith,
              length-append {0} acc ((k * n_args, p.acting kind) ∷ []),
              h,
              ==→ne (length acc) max_actor l,
            ))))
  ]
  put_actors-take true false none k kind acc h = unchanged acc h
  put_actors-take true false (some bits) k kind acc h =
      actors_from-take (k * n_args) bits (p.by_group kind) 1 (n_args - 1) acc h

  with_bits-append :
      (k : ℕ) (o : Option (ℕ → ℕ)) (acc : List (ℕ × (ℕ → ℕ)))
      → with_bits k o acc ≡ acc ++ with_bits k o []
  with_bits-append k none acc = sym (append-nil acc)
  with_bits-append k (some bits) acc = refl

  abbrev with_type : ℕ → Action → Tables → Tables
  with_type k t tables = record {
    arguments = with_bits k (argument_bits t (p.bits t.kind)) tables.arguments;
    actors = add_actors p k t tables.actors;
  }

  add_type-if :
      (k : ℕ) (t : Action) (tables : Tables)
      → add_type p k t tables ≡ (if is_on t then with_type k t tables else tables)
  unfolding add_type
  add_type-if k t tables = by_tests (p.mask t.kind) (is_noop t.kind)
    where
      by_tests :
          (a b : Bool)
          → (if not a || b then tables else with_type k t tables)
            ≡ (if a && not b then with_type k t tables else tables)
      by_tests true true = refl
      by_tests true false = refl
      by_tests false true = refl
      by_tests false false = refl

  abbrev IsListing : ℕ → List Action → Tables → Tables → Type 0
  IsListing k ts before out =
      (out.arguments ≡ before.arguments ++ all_arguments k ts)
      × (out.actors ≡ take max_actor (before.actors ++ all_actors k ts))

  type_on :
      (k : ℕ) (t : Action) (ts : List Action) (tables out : Tables)
      → length tables.actors ≤ max_actor
      → IsListing (suc k) ts (with_type k t tables) out
      → (out.arguments
          ≡ tables.arguments
            ++ (with_bits k (argument_bits t (p.bits t.kind)) [] ++ all_arguments (suc k) ts))
        × (out.actors ≡ take max_actor (tables.actors ++ (actors_of k t ++ all_actors (suc k) ts)))
  unfolding add_actors
  type_on k t ts tables out h (q, q') = (
    q
        ∙ ap (λ l. l ++ all_arguments (suc k) ts)
            (with_bits-append k (argument_bits t (p.bits t.kind)) tables.arguments)
        ∙ append_assoc tables.arguments _ (all_arguments (suc k) ts),
    q'
        ∙ ap (λ l. take max_actor (l ++ all_actors (suc k) ts))
            (put_actors-take t.has_actor t.any_argument (argument_bits t (p.bits t.kind)) k t.kind
              tables.actors h)
        ∙ take-append-take max_actor (tables.actors ++ actors_of k t) (all_actors (suc k) ts)
        ∙ ap (take max_actor) (append_assoc tables.actors (actors_of k t) (all_actors (suc k) ts)),
  )

  with_type-few :
      (k : ℕ) (t : Action) (tables : Tables)
      → length tables.actors ≤ max_actor
      → length (with_type k t tables).actors ≤ max_actor
  unfolding add_actors
  with_type-few k t tables h =
      rw
        (put_actors-take t.has_actor t.any_argument (argument_bits t (p.bits t.kind)) k t.kind
          tables.actors h)
        (length-take max_actor (tables.actors ++ actors_of k t))

  by_test :
      (k : ℕ) (t : Action) (ts : List Action) (tables : Tables)
      → length tables.actors ≤ max_actor
      → ((tables : Tables)
          → length tables.actors ≤ max_actor
          → IsListing (suc k) ts tables (add_types p (suc k) ts tables))
      → (b : Bool) → is_on t ≡ b
      → IsListing k
          (t ∷ ts)
          tables
          (add_types p (suc k) ts (if b then with_type k t tables else tables))
  unfolding all_actors all_arguments
  by_test k t ts tables h ih true e = rw e (
      type_on k t ts tables (add_types p (suc k) ts (with_type k t tables)) h
        (ih (with_type k t tables) (with_type-few k t tables h)))
  by_test k t ts tables h ih false e = rw e (ih tables h)

  pub add_types-IsListing :
      (k : ℕ) (ts : List Action) (tables : Tables)
      → length tables.actors ≤ max_actor
      → IsListing k ts tables (add_types p k ts tables)
  unfolding add_types all_actors all_arguments
  add_types-IsListing k [] tables h = (sym (append-nil tables.arguments), unchanged tables.actors h)
  add_types-IsListing k (t ∷ ts) tables h =
      subst (λ x. IsListing k (t ∷ ts) tables (add_types p (suc k) ts x))
        (sym (add_type-if k t tables))
        (by_test k t ts tables h (add_types-IsListing (suc k) ts) (is_on t) refl)

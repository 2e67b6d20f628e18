-- ===== src/Players/Fresh.antt =====
-- wc3hook/players.c: the identities that are registered are new.
use wc3env.Prelude.{
  ℕ, ◌+◌, ◌-◌, ◌≡◌, refl, Bool, true, false, List, [], ◌∷◌, ◌==◌, Bool-cases, Option-cases, ap, map,
  inl, inr,
}
use wc3env.Players.{
  Result, failed, configured, enroll, lowest, lowest_lem, with, Problem, no_free_identity,
  not_registered, and_then,
}

-- Pairs of slots and ids: each id is unused, by the table and by the pairs before it.
abbrev pub IsFresh : (ℕ → Bool) → List (ℕ × ℕ) → Type 0
IsFresh used [] = Unit
IsFresh used ((p, id) ∷ pairs) = (used id ≡ false) × IsFresh (with used id true) pairs

-- The pairs name the slots, each of them, in their order, with fresh ids.
pub data IsEnrolled (used : ℕ → Bool) (slots : List ℕ) : Result → Type 0 where
  refused : (e : Problem) → IsEnrolled used slots (failed e)
  accepted :
      (pairs : List (ℕ × ℕ))
      → map (λ (q : ℕ × ℕ). q.0) pairs ≡ slots
      → IsFresh used pairs
      → IsEnrolled used slots (configured pairs)

and_then-IsEnrolled :
    (used : ℕ → Bool) (p id : ℕ) (ps : List ℕ) (r : Result)
    → used id ≡ false
    → IsEnrolled (with used id true) ps r
    → IsEnrolled used (p ∷ ps) (and_then (p, id) r)
and_then-IsEnrolled used p id ps _ u (refused e) = refused e
and_then-IsEnrolled used p id ps _ u (accepted pairs l f) =
    accepted ((p, id) ∷ pairs) (ap (λ t. p ∷ t) l) (u, f)

-- Registration either is refused, or pairs the slots that need an identity, each of them once and in
-- their order, with identities of which each is one that no one in the game has, and none before it in
-- the list.
pub enroll-IsEnrolled :
    (register : ℕ → ℕ) (used : ℕ → Bool) (slots : List ℕ)
    → IsEnrolled used slots (enroll register used slots)
unfolding enroll
enroll-IsEnrolled register used [] = accepted [] refl tt
enroll-IsEnrolled register used (p ∷ ps) = elim (Option-cases (lowest used)) [
  | inl n ↦ rw (enroll, n) (refused no_free_identity)
  | inr (id, n) ↦ elim (Bool-cases (register id == (id - 1) + 0x80)) [
    | inl r ↦
        rw (enroll, n, r)
          (and_then-IsEnrolled used p id ps _ (lowest_lem used id n)
            (enroll-IsEnrolled register (with used id true) ps))
    | inr r ↦ rw (enroll, n, r) (refused not_registered)
  ]
]

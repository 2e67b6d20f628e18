-- ===== src/Features/Lookup.antt =====
-- wc3hook/features_obs.h: the binary search of a table that is sorted by id.
use wc3env.Prelude.{
  ℕ, zero, suc, ◌+◌, ◌-◌, ◌/◌, ◌≤◌, ◌<◌, ◌≡◌, inl, inr, ap, ltb, arith, Bool-cases, ltb→lt, ltb→ge,
  lt→ltb, ne→==, eq→==, ge→ltb,
}
use wc3env.Features.{lookup_in, lookup}

abbrev IsSorted : (ℕ → ℕ × ℕ) → ℕ → Type 0
IsSorted table n = (i j : ℕ) → i < j → j < n → (table i).0 < (table j).0

lookup_in-found :
    (fuel : ℕ) (table : ℕ → ℕ × ℕ) (n lo hi i missing : ℕ)
    → IsSorted table n
    → hi ≤ n
    → lo ≤ i
    → i < hi
    → hi ≤ lo + fuel
    → lookup_in fuel table lo hi (table i).0 missing ≡ (table i).1
unfolding lookup_in
lookup_in-found zero table n lo hi i missing s a b c d = absurd (omega arith)
lookup_in-found (suc fuel) table n lo hi i missing s a b c d =
    let mid = (lo + (hi - 1)) / 2 in
    let inside : (lo ≤ mid) × (mid < hi) = (omega arith, omega arith) in
    elim (Bool-cases (ltb mid i)) [
      | inl l ↦
          let below = s mid i (ltb→lt mid i l) (omega arith) in
          rw
            (
              lt→ltb lo hi (omega arith),
              ne→== (table mid).0 (table i).0 (omega (arith, below)),
              lt→ltb (table mid).0 (table i).0 below,
            )
            (lookup_in-found fuel table n (mid + 1) hi i missing s a (omega (arith, ltb→lt mid i l))
              c (omega (arith, inside.0)))
      | inr l ↦ elim (Bool-cases (ltb i mid)) [
        | inl m ↦
            let above = s i mid (ltb→lt i mid m) (omega (arith, inside.1)) in
            rw
              (
                lt→ltb lo hi (omega arith),
                ne→== (table mid).0 (table i).0 (omega (arith, above)),
                ge→ltb (table mid).0 (table i).0 (omega (arith, above)),
              )
              (lookup_in-found fuel table n lo mid i missing s (omega (arith, inside.1)) b
                (ltb→lt i mid m) (omega (arith, inside.1)))
        | inr m ↦
            let here : mid ≡ i = omega (arith, ltb→ge mid i l, ltb→ge i mid m) in
            rw
              (
                lt→ltb lo hi (omega arith),
                eq→== (table mid).0 (table i).0 (ap (λ k. (table k).0) here),
              )
              (ap (λ k. (table k).1) here)
      ]
    ]

-- In a table sorted by id, the search finds the number of every id that the table has.
lookup-found :
    (table : ℕ → ℕ × ℕ) (n i missing : ℕ)
    → IsSorted table n
    → i < n
    → lookup table n (table i).0 missing ≡ (table i).1
unfolding lookup
lookup-found table n i missing s h =
    lookup_in-found n table n 0 n i missing s (omega arith) (omega arith) h (omega arith)

-- ===== src/Clock/Waits/Answered.antt =====
-- wc3hook/clock.c: what a wait that is made while the clock stands answers.
use wc3env.Prelude.{
  ℕ, suc, ◌+◌, ◌≤◌, ◌<◌, ◌≡◌, ◌≢◌, refl, ap, ◌⊎◌, inl, inr, Bool, true, false, Option, none, some,
  Bool-cases, Option-cases, ◌&&◌, List, [], ◌∷◌, ◌++◌, arith, if◌then◌else◌, length, length-append,
}
use wc3env.Clock.{Double, ClockAnchor}
use wc3env.Clock.Waits.{
  wait_timeout, maximum_wait_objects, frozen_wait_min_ms, Wait, at_least, msg_wait_hook,
  scale_timeout,
}

-- What a wait on `n` handles can answer: one of them, one of them abandoned, a completed call, a
-- timeout or a failure.
abbrev pub Answers : ℕ → ℕ → Type 0
Answers n r =
    (r < n) ⊎ ((0x80 ≤ r) × (r < 0x80 + n)) ⊎ (r ≡ 0xc0) ⊎ (r ≡ wait_timeout) ⊎ (r ≡ 0xffff_ffff)

abbrev pub after_first : Option ℕ → Option ℕ
after_first none = none
after_first (some i) = some (suc i)

-- The first handle of a list that is signalled, by its place, and whether all of them are.
abbrev pub first_on : (ℕ → Bool) → List ℕ → Option ℕ
first_on signalled [] = none
first_on signalled (h ∷ hs) = if signalled h then some 0 else after_first (first_on signalled hs)

abbrev pub all_on : (ℕ → Bool) → List ℕ → Bool
all_on signalled [] = true
all_on signalled (h ∷ hs) = signalled h && all_on signalled hs

-- What an answer says of the handles: of a wait for any of them, the first that is signalled, or on a
-- timeout that none is; of a wait for all, that all are, or on a timeout that they are not.
pub record IsAnswer (signalled : ℕ → Bool) (w : Wait) (r : ℕ) : Type 0 where
  pub answers : Answers (length w.handles) r
  pub first : w.all ≡ false → r < length w.handles → first_on signalled w.handles ≡ some r
  pub none_on : w.all ≡ false → r ≡ wait_timeout → first_on signalled w.handles ≡ none
  pub every : w.all ≡ true → r < length w.handles → all_on signalled w.handles ≡ true
  pub not_every : w.all ≡ true → r ≡ wait_timeout → all_on signalled w.handles ≡ false

-- What Windows documents of the wait: it answers for the handles that it was given, by those that are
-- signalled when it ends, and it takes at most 64. The last handle is the event `g_running`, which nobody owns, so it is never
-- abandoned.
pub record IsWait (signalled : ℕ → Bool) (os : Wait → ℕ) (running : ℕ) : Type 0 where
  pub documented :
      (w : Wait) → length w.handles ≤ maximum_wait_objects → IsAnswer signalled w (os w)
  pub unowned :
      (w : Wait) (hs : List ℕ)
      → w.handles ≡ hs ++ running ∷ []
      → length hs < maximum_wait_objects
      → os w ≢ 0x80 + length hs

some_eq : (a b : ℕ) → some a ≡ some b → a ≡ b
some_eq a b e = ap (λ o. elim o as (λ o. ℕ) [ none ↦ a | some k ↦ k ]) e

pub first_on-lt :
    (signalled : ℕ → Bool) (hs : List ℕ) (n : ℕ) → first_on signalled hs ≡ some n → n < length hs
first_on-lt signalled [] n e = absurd (cc)
first_on-lt signalled (h ∷ hs) n e = elim (Bool-cases (signalled h)) [
  | inl k ↦ omega (arith, some_eq 0 n (rw k at e))
  | inr k ↦ elim (Option-cases (first_on signalled hs)) [
    | inl o ↦ absurd (ground arith)
    | inr (i, o) ↦ ground (arith, first_on-lt signalled hs i o)
  ]
]

-- The wait that the frozen clock makes of one for any of the handles.
abbrev with_running : ℕ → Wait → Wait
with_running running w = record w {
  handles = w.handles ++ running ∷ [];
  all = false;
  ms = at_least frozen_wait_min_ms w.ms;
}

-- The same of waits that also end when input arrives, which is one index past the handles.
abbrev AnswersInput : ℕ → ℕ → Type 0
AnswersInput n r = Answers n r ⊎ (r ≡ n)

record IsMsgWait (os : Wait → ℕ) (running : ℕ) : Type 0 where
  pub answers : (w : Wait) → AnswersInput (length w.handles) (os w)
  pub unowned :
      (w : Wait) (hs : List ℕ)
      → w.handles ≡ hs ++ running ∷ []
      → length hs < maximum_wait_objects
      → os w ≢ 0x80 + length hs

-- Where the system answers waits as it documents, a wait for input, on the caller's handles and on
-- `g_running`, is answered as a wait on the caller's handles alone: the index of arrived input is
-- the one that the caller expects.
msg_wait_hook-AnswersInput :
    (D : Double) (os : Wait → ℕ) (running : ℕ) (a : ClockAnchor D) (wait_floor : ℕ) (w : Wait)
    → IsMsgWait os running
    → AnswersInput (length w.handles) (msg_wait_hook D os running a wait_floor w)
unfolding msg_wait_hook
msg_wait_hook-AnswersInput D os running a wait_floor w h =
    let both : Wait = record w {
      handles = w.handles ++ running ∷ [];
      all = false;
      ms = at_least frozen_wait_min_ms w.ms;
    } in
    ground (
      arith,
      h.answers (record w { ms = scale_timeout D a wait_floor w.ms }),
      h.answers both,
      h.unowned both w.handles refl,
      length-append w.handles (running ∷ []),
    )

-- ===== src/Setup/Starts.antt =====
-- wc3hook/setup.c: `assign_starts_hook`, which gives each player of the match a start location.
use wc3env.Prelude.{
  ℕ, ◌≡◌, inl, inr, refl, Bool, true, false, not, ◌&&◌, ◌||◌, Option, none, some, List, [], ◌∷◌,
  if◌then◌else◌, ltb, ◌==◌, arith, Bool-cases, Option-cases,
}
use wc3env.Setup.{mem, slots, Setup}

-- The locations given: players with their locations, the last one first.
abbrev pub Given : Type 0
Given = List (ℕ × ℕ)

abbrev pub taken : ℕ → Given → Bool
taken location [] = false
taken location ((p, l) ∷ gs) = location == l || taken location gs

abbrev pub may_keep : List ℕ → Given → ℕ → Bool
may_keep defined given location =
    ltb location 16 && mem location defined && not (taken location given)

-- The first pass: players keep the map-defined location that they have, unless an earlier one has it.
-- `start_of` is GetPlayerStartLocation, `none` where it is negative.
pub keep : (ℕ → Option ℕ) → List ℕ → List ℕ → List ℕ → Given → Given × List ℕ
keep start_of players defined [] given = (given, [])
keep start_of players defined (p ∷ ps) given =
    let unkept = keep start_of players defined ps given in
    if mem p players
    then elim (start_of p) [
      | none ↦ (unkept.0, p ∷ unkept.1)
      | some location ↦
          let kept = keep start_of players defined ps ((p, location) ∷ given) in
          if may_keep defined given location then kept else (unkept.0, p ∷ unkept.1)
    ]
    else unkept

-- The lowest location that is defined and free.
pub lowest_free : List ℕ → Given → List ℕ → Option ℕ
lowest_free defined given [] = none
lowest_free defined given (l ∷ ls) =
    let later = lowest_free defined given ls in
    if mem l defined && not (taken l given) then some l else later

-- The second pass: each of the others is moved to the lowest free location, if there is one.
pub move : List ℕ → List ℕ → Given → Given
move defined [] given = given
move defined (p ∷ ps) given = elim (lowest_free defined given slots) [
  | none ↦ move defined ps given
  | some location ↦ move defined ps ((p, location) ∷ given)
]

pub assign_starts : (ℕ → Option ℕ) → Setup → Given
assign_starts start_of s =
    if s.closed
    then []
    else let kept = keep start_of s.players s.defined slots [] in move s.defined kept.1 kept.0

-- No two players are given one location, and all the locations given are the map's.
abbrev pub IsApart : List ℕ → Given → Type 0
IsApart defined [] = Unit
IsApart defined ((p, l) ∷ gs) = (taken l gs ≡ false) × (mem l defined ≡ true) × IsApart defined gs

may_keep-IsApart :
    (defined : List ℕ) (given : Given) (p l : ℕ)
    → may_keep defined given l ≡ true
    → IsApart defined given
    → IsApart defined ((p, l) ∷ given)
may_keep-IsApart defined given p l k h = (ground arith, ground arith, h)

keep-IsApart :
    (start_of : ℕ → Option ℕ) (players defined ps : List ℕ) (given : Given)
    → IsApart defined given
    → IsApart defined (keep start_of players defined ps given).0
unfolding keep
keep-IsApart start_of players defined [] given h = h
keep-IsApart start_of players defined (p ∷ ps) given h =
    let unkept = keep-IsApart start_of players defined ps given h in
    elim (Bool-cases (mem p players)) [
      | inr b ↦ rw (keep, b) unkept
      | inl b ↦ elim (Option-cases (start_of p)) [
        | inl n ↦ rw (keep, b, n) unkept
        | inr (l, n) ↦ elim (Bool-cases (may_keep defined given l)) [
          | inl k ↦
              rw (keep, b, n, k)
                (keep-IsApart start_of players defined ps ((p, l) ∷ given)
                  (may_keep-IsApart defined given p l k h))
          | inr k ↦ rw (keep, b, n, k) unkept
        ]
      ]
    ]

lowest_free_lem :
    (defined : List ℕ) (given : Given) (ls : List ℕ) (l : ℕ)
    → lowest_free defined given ls ≡ some l
    → (taken l given ≡ false) × (mem l defined ≡ true)
unfolding lowest_free
lowest_free_lem defined given [] l h = cc
lowest_free_lem defined given (k ∷ ks) l h = ground (arith, lowest_free_lem defined given ks l)

move-IsApart :
    (defined ps : List ℕ) (given : Given)
    → IsApart defined given
    → IsApart defined (move defined ps given)
unfolding move
move-IsApart defined [] given h = h
move-IsApart defined (p ∷ ps) given h = elim (Option-cases (lowest_free defined given slots)) [
  | inl n ↦ rw (move, n) (move-IsApart defined ps given h)
  | inr (l, n) ↦
      let f = lowest_free_lem defined given slots l n in
      rw (move, n) (move-IsApart defined ps ((p, l) ∷ given) (f.0, f.1, h))
]

-- Wherever the lobby put the players, those of the match that are given a start location have each
-- their own, which the map defines.
pub assign_starts-IsApart :
    (start_of : ℕ → Option ℕ) (s : Setup) → IsApart s.defined (assign_starts start_of s)
unfolding assign_starts
assign_starts-IsApart start_of s = elim (Bool-cases s.closed) [
  | inl c ↦ rw (assign_starts, c) tt
  | inr c ↦
      let kept = keep start_of s.players s.defined slots [] in
      rw (assign_starts, c)
        (move-IsApart s.defined kept.1 kept.0
          (keep-IsApart start_of s.players s.defined slots [] tt))
]

pub assign_starts-closed :
    (start_of : ℕ → Option ℕ) (s : Setup) → s.closed ≡ true → assign_starts start_of s ≡ []
unfolding assign_starts
assign_starts-closed start_of s h = rw h refl

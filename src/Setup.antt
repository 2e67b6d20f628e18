-- ===== src/Setup.antt =====
-- wc3hook/setup.c: the configuration of a match before its units are created. Masks are lists of the
-- numbers of their bits; the game's own functions are what the calls are passed on to.
pub mod Shuffle
pub mod Starts
pub mod Final
pub mod Tests
use Prim.Native.Nat.{bit_xor}
use wc3env.Prelude.{
  ℕ, zero, suc, ◌+◌, ◌-◌, ◌*◌, ◌/◌, ◌%◌, ◌^◌, Bool, true, false, not, ◌&&◌, ◌||◌, Option, none,
  some, List, [], ◌∷◌, ◌++◌, if◌then◌else◌, ltb, leb, ◌==◌, length, set, get_or,
}

abbrev pub mem : ℕ → List ℕ → Bool
mem n [] = false
mem n (m ∷ ms) = n == m || mem n ms

-- Coordinates are the 32 bits of floats.
pub record Setup : Type 0 where
  pub enabled : Bool
  pub closed : Bool
  pub seed : ℕ
  pub shuffle : Bool
  pub shuffled : Bool
  pub bad_locations : Bool
  pub seen_config : Bool
  pub players : List ℕ
  pub computers : List ℕ
  pub defined : List ℕ
  pub slot_starts : List ℕ
  pub races : ℕ → ℕ
  pub xy : ℕ → ℕ × ℕ

abbrev pub slots : List ℕ
slots = 0 ∷ 1 ∷ 2 ∷ 3 ∷ 4 ∷ 5 ∷ 6 ∷ 7 ∷ 8 ∷ 9 ∷ 10 ∷ 11 ∷ 12 ∷ 13 ∷ 14 ∷ 15 ∷ []

-- A xorshift generator: the state after a draw is what it draws.
pub next_random : ℕ → ℕ
next_random x =
    let a = bit_xor x (x * 2 ^ 13 % 2 ^ 32) in
    let b = bit_xor a (a / 2 ^ 17) in bit_xor b (b * 2 ^ 5 % 2 ^ 32)

pub swap : ℕ → ℕ → List ℕ → List ℕ
swap i j p = set (set p i (get_or p j 0)) j (get_or p i 0)

-- `for (i = count - 1; i > 0; i--)`
pub permute : ℕ → ℕ → List ℕ → List ℕ
permute zero state p = p
permute (suc i) state p =
    let drawn = next_random state in permute i drawn (swap (suc i) (drawn % (i + 2)) p)

abbrev pub select : List ℕ → List ℕ → List ℕ
select defined [] = []
select defined (i ∷ is') = let rest = select defined is' in if mem i defined then i ∷ rest else rest

-- The calls of the native DefineStartLocation: each defined location with the coordinates of the one
-- that the permutation has at its place.
pub relocate : (ℕ → ℕ × ℕ) → List ℕ → List ℕ → List (ℕ × (ℕ × ℕ))
relocate xy [] ps = []
relocate xy (i ∷ is') [] = []
relocate xy (i ∷ is') (p ∷ ps) = (i, xy p) ∷ relocate xy is' ps

pub shuffle_locations : Setup → Setup × List (ℕ × (ℕ × ℕ))
shuffle_locations s =
    let ids = select s.defined slots in
    if s.closed || not s.shuffle || s.shuffled
    then (s, [])
    else if ltb (length ids) 2
    then (record s { bad_locations = true }, [])
    else (
      record s { shuffled = true },
      relocate s.xy ids (permute (length ids - 1) (bit_xor s.seed 0x9e37_79b9) ids),
    )

abbrev update : (ℕ → ℕ × ℕ) → ℕ → ℕ × ℕ → ℕ → ℕ × ℕ
update f i v j = if i == j then v else f j

pub players_hook : Setup → Setup
players_hook s = if s.closed then s else record s {
  shuffled = false;
  bad_locations = false;
  defined = [];
  slot_starts = [];
  seen_config = true;
}

-- The race and the controller that are passed on; `p` is the slot of the handle.
pub race_hook : Setup → ℕ → ℕ → ℕ
race_hook s p preference =
    if not s.closed && ltb p 16 && not (s.races p == 0) then s.races p else preference

pub controller_hook : Setup → ℕ → ℕ → ℕ
controller_hook s p controller =
    if not s.closed && ltb p 16 && mem p s.computers then 1 else controller

-- An index that is negative or past the last is `none`.
pub location_hook : Option ℕ → ℕ × ℕ → Setup → Setup
location_hook index xy s = if s.closed then s else elim index [
  | none ↦ record s { bad_locations = true }
  | some i ↦
      if leb 16 i || s.shuffled
      then record s { bad_locations = true }
      else record s { xy = update s.xy i xy; defined = i ∷ s.defined }
]

-- The state, and the locations moved, before the call is passed on.
pub start_hook : Option ℕ → Option ℕ → Setup → Setup × List (ℕ × (ℕ × ℕ))
start_hook none location s = shuffle_locations s
start_hook (some p) none s = shuffle_locations s
start_hook (some p) (some location) s = shuffle_locations (
    if not s.closed && ltb p 16 && ltb location 16 && mem location s.defined
    then record s { slot_starts = p ∷ s.slot_starts }
    else s)

pub force_start_hook : Setup → Setup × List (ℕ × (ℕ × ℕ))
force_start_hook s = shuffle_locations s

pub setup_clear : Setup → Setup
setup_clear s = record s {
  closed = false;
  shuffled = false;
  bad_locations = false;
  seen_config = false;
  defined = [];
  slot_starts = [];
  xy = λ i. (0, 0);
}

pub setup_hold : Setup → Setup
setup_hold s = if s.enabled && not s.closed then record s { closed = true } else s

abbrev all_in : List ℕ → List ℕ → Bool
all_in [] ms = true
all_in (n ∷ ns) ms = mem n ms && all_in ns ms

pub data Problem : Type 0 where
  no_configuration no_start_location not_randomized : Problem

pub setup_error : Setup → Option Problem
setup_error s =
    if not s.enabled
    then none
    else if not s.seen_config
    then some no_configuration
    else if not (all_in s.players s.slot_starts)
    then some no_start_location
    else if s.shuffle && (s.bad_locations || not s.shuffled)
    then some not_randomized
    else none

-- ===== src/Features.antt =====
-- wc3hook/features_obs.h and features.c: the tables by which an observation becomes the numbers of a
-- policy. Values of a map are any type; a table of the reference data is a function of its index.
pub mod Lookup
pub mod Table
pub mod Placed
pub mod Stored
pub mod Growth
pub mod Sets
pub mod Block
pub mod Memory
pub mod Tests
use wc3env.Prelude.{
  ℕ, zero, suc, ◌+◌, ◌-◌, ◌*◌, ◌/◌, ◌%◌, ◌^◌, Bool, true, false, not, ◌&&◌, ◌||◌, Option, none,
  some, List, [], ◌∷◌, ◌++◌, if◌then◌else◌, ltb, leb, ◌==◌,
}

-- `lookup`: `hi` is one past the source's, which starts at n - 1 and may go to -1. `fuel` bounds the
-- rounds.
pub lookup_in : ℕ → (ℕ → ℕ × ℕ) → ℕ → ℕ → ℕ → ℕ → ℕ
lookup_in zero table lo hi id missing = missing
lookup_in (suc fuel) table lo hi id missing =
    let mid = (lo + (hi - 1)) / 2 in
    let right = lookup_in fuel table (mid + 1) hi id missing in
    let left = lookup_in fuel table lo mid id missing in
    if ltb lo hi
    then (if (table mid).0 == id
        then (table mid).1
        else if ltb (table mid).0 id
        then right
        else left)
    else missing

pub lookup : (ℕ → ℕ × ℕ) → ℕ → ℕ → ℕ → ℕ
lookup table n id missing = lookup_in n table 0 n id missing

-- An open-addressing map of `cap` places, a power of two.
pub record Map (V : Type 0) : Type 0 where
  pub cap : ℕ
  pub n : ℕ
  pub places : ℕ → Option (ℕ × V)

module _ {V : Type 0} where
  abbrev pub free_or_key : Option (ℕ × V) → ℕ → Bool
  free_or_key none key = true
  free_or_key (some e) key = e.0 == key

  -- The probing from a place on; `fuel` is the number of places left to look at.
  pub probe : ℕ → Map V → ℕ → ℕ → ℕ
  probe zero m key i = i
  probe (suc fuel) m key i =
      let next = probe fuel m key ((i + 1) % m.cap) in
      if free_or_key (m.places i) key then i else next

  pub map_slot : Map V → ℕ → ℕ
  map_slot m key = probe m.cap m key (key * 2654435761 % 2 ^ 32 % m.cap)

  abbrev pub is_free : Option (ℕ × V) → Bool
  is_free none = true
  is_free (some e) = false

  abbrev pub at_place : (ℕ → Option (ℕ × V)) → ℕ → ℕ × V → ℕ → Option (ℕ × V)
  at_place places i e j = if i == j then some e else places j

  pub store : ℕ → V → Map V → Map V
  store key value m =
      let i = map_slot m key in
      record m {
        n = if is_free (m.places i) then m.n + 1 else m.n;
        places = at_place m.places i (key, value);
      }

  pub map_init : ℕ → Map V
  map_init cap = record { cap = cap; n = 0; places = λ i. none }

  pub map_clear : Map V → Map V
  map_clear m = record m { n = 0; places = λ i. none }

  -- The entries from the last `left` places on, put into a map of twice the size, which stays at most
  -- half full.
  pub refill : ℕ → Map V → Map V → Map V
  refill zero m bigger = bigger
  refill (suc left) m bigger =
      refill left m
        (elim (m.places (m.cap - suc left)) [ none ↦ bigger | some e ↦ store e.0 e.1 bigger ])

  pub map_grow : Map V → Map V
  map_grow m = refill m.cap m (map_init (m.cap * 2))

  pub map_put : ℕ → V → Map V → Map V
  map_put key value m = store key value (if ltb m.cap ((m.n + 1) * 2) then map_grow m else m)

  pub map_get : Map V → ℕ → Option V
  map_get m key = elim (m.places (map_slot m key)) [ none ↦ none | some e ↦ some e.1 ]

-- The class of an order, by its id.
pub order_class : ℕ → ℕ
order_class id =
    if id == 0
    then 1
    else if not (id / 2 ^ 24 == 0)
    then 8
    else if id == 851986 || id == 851990
    then 2
    else if id == 851983 || id == 851984
    then 3
    else if id == 851971
    then 4
    else if id == 851972 || id == 851993
    then 5
    else if id == 852018 || id == 851970
    then 6
    else if id == 852017
    then 7
    else if id == 852024
    then 9
    else if leb 852000 id
    then 10
    else 11

pub is_worker : List ℕ → ℕ → Bool
is_worker [] type = false
is_worker (w ∷ ws) type = w == type || is_worker ws type

-- Structures that are remembered, in the order first seen, by their unit ids.
pub record Remembered (Row : Type 0) : Type 0 where
  pub unit_id : ℕ
  pub row : Row
  pub seen : ℕ

module _ {Row : Type 0} where
  pub remember : Remembered Row → List (Remembered Row) → List (Remembered Row)
  remember r [] = r ∷ []
  remember r (q ∷ qs) =
      let rest = remember r qs in if q.unit_id == r.unit_id then r ∷ qs else q ∷ rest

  -- The first of this id goes.
  pub forget : ℕ → List (Remembered Row) → List (Remembered Row)
  forget id [] = []
  forget id (q ∷ qs) = let rest = forget id qs in if q.unit_id == id then qs else q ∷ rest

-- The header of an observation: for each of its tables, the offset and the count.
pub record Header : Type 0 where
  pub magic : ℕ
  pub version : ℕ
  pub size : ℕ
  pub tables : ℕ
  pub table : ℕ → ℕ × ℕ

-- The offsets and counts of the eleven tables, if these are `size` bytes of an observation of this
-- version.
pub parse : Header → ℕ → Option (ℕ → ℕ × ℕ)
parse h size =
    if ltb size 292
    then none
    else if not (h.magic == 0x3142_4f57)
        || not (h.version == 3)
        || not (h.size == size)
        || ltb h.tables 11
    then none
    else some h.table

-- ===== src/Alloc.antt =====
-- wc3hook/allocator_bins.h and allocator.c: the search of an arena's free blocks, grouped by size, and
-- the choice of an arena. A bin is the list of its blocks; merging of adjacent blocks is the game's.
pub mod Search
pub mod Tests
use wc3env.Prelude.{
  ℕ, zero, suc, ◌-◌, ◌/◌, Bool, true, false, not, ◌&&◌, ◌||◌, Option, none, some, List, [], ◌∷◌,
  if◌then◌else◌, ltb, leb, ◌==◌, drop,
}

pub record Block : Type 0 where
  pub size : ℕ
  pub address : ℕ

abbrev pub better : Block → Option Block → Bool
better b none = true
better b (some c) = ltb b.size c.size

-- One bin, from its best block so far: a block that leaves less than 16 over ends the search.
pub search : ℕ → List Block → Option Block → Option Block
search need [] best = best
search need (b ∷ bs) best =
    let later = search need bs (some b) in
    let other = search need bs best in
    if leb need b.size && better b best
    then (if ltb (b.size - need) 16 then some b else later)
    else other

pub search_bins : ℕ → List (List Block) → Option Block
search_bins need [] = none
search_bins need (bin ∷ bins) = elim (search need bin none) [
  | none ↦ search_bins need bins
  | some b ↦ some b
]

-- The first bin of the nine that may have a block of this size.
pub first_bin : ℕ → ℕ
first_bin need = if ltb 8 (need / 32) then 8 else need / 32

pub arena_find_free : List (List Block) → ℕ → Option Block
arena_find_free bins need = search_bins need (drop (first_bin need) bins)

-- `fragmented` is the arena's field at 0x24: without it there is nothing to merge.
pub find_free : (List (List Block) → List (List Block)) → ℕ → List (List Block) → ℕ → Option Block
find_free coalesce fragmented bins need = elim (arena_find_free bins need) [
  | some b ↦ some b
  | none ↦ if fragmented == 0 then none else arena_find_free (coalesce bins) need
]

-- Arenas of a group, with their tags.
pub record Arena : Type 0 where
  pub id : ℕ
  pub tag : ℕ

current : ℕ → List Arena → Option Arena
current tag [] = none
current tag (a ∷ as') = let later = current tag as' in if a.tag == tag then some a else later

-- `moved` is whether the caller is the fallback of a reallocation.
pub block_alloc : Bool → (ℕ → List Arena) → ℕ → Option Arena → Option Arena
block_alloc moved arenas group none = none
block_alloc moved arenas group (some arena) =
    if moved
    then elim (current arena.tag (arenas group)) [ none ↦ some arena | some a ↦ some a ]
    else some arena

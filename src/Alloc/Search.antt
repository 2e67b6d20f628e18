-- ===== src/Alloc/Search.antt =====
-- wc3hook/allocator_bins.h: the search finds a block that is large enough wherever there is one.
use wc3env.Prelude.{
  ℕ, zero, suc, ◌-◌, ◌/◌, ◌+◌, ◌≤◌, ◌<◌, ◌≡◌, ◌⊎◌, inl, inr, refl, Bool, true, false, ◌&&◌, Option,
  none, some, List, [], ◌∷◌, ltb, leb, Bool-cases, drop, All, leb→le, leb→gt, arith,
}
use wc3env.Alloc.{Block, better, search, search_bins, first_bin, arena_find_free}

abbrev pub In : Block → List Block → Type 0
In b [] = ⊥
In b (c ∷ cs) = (b ≡ c) ⊎ In b cs

abbrev pub InBins : Block → List (List Block) → Type 0
InBins b [] = ⊥
InBins b (bin ∷ bins) = In b bin ⊎ InBins b bins

-- Too small for `need`, all of them.
abbrev pub TooSmall : ℕ → List Block → Type 0
TooSmall need = All (λ b. b.size < need)

-- What a search of these blocks answers: none, and they are all too small, or one of them that is
-- large enough.
pub data IsSearched (need : ℕ) (bs : List Block) : Option Block → Type 0 where
  missed : TooSmall need bs → IsSearched need bs none
  hit : (b : Block) → need ≤ b.size → In b bs → IsSearched need bs (some b)

pub data IsSearchedBins (need : ℕ) (bins : List (List Block)) : Option Block → Type 0 where
  missed_all : All (TooSmall need) bins → IsSearchedBins need bins none
  hit_one : (b : Block) → need ≤ b.size → InBins b bins → IsSearchedBins need bins (some b)

and_left : (a b : Bool) → (a && b) ≡ true → a ≡ true
and_left true b h = refl
and_left false b h = h

-- With a best block that is large enough, one is found: it, or a later one.
data IsPicked (need : ℕ) (c : Block) (bs : List Block) : Option Block → Type 0 where
  picked : (b : Block) → need ≤ b.size → (b ≡ c) ⊎ In b bs → IsPicked need c bs (some b)

later-IsPicked :
    (need : ℕ) (c d : Block) (bs : List Block) (o : Option Block)
    → IsPicked need d bs o
    → IsPicked need c (d ∷ bs) o
later-IsPicked need c d bs _ (picked b n (inl e)) = picked b n (inr (inl e))
later-IsPicked need c d bs _ (picked b n (inr i)) = picked b n (inr (inr i))

past-IsPicked :
    (need : ℕ) (c d : Block) (bs : List Block) (o : Option Block)
    → IsPicked need c bs o
    → IsPicked need c (d ∷ bs) o
past-IsPicked need c d bs _ (picked b n (inl e)) = picked b n (inl e)
past-IsPicked need c d bs _ (picked b n (inr i)) = picked b n (inr (inr i))

search-IsPicked :
    (need : ℕ) (bs : List Block) (c : Block)
    → need ≤ c.size
    → IsPicked need c bs (search need bs (some c))
unfolding search
search-IsPicked need [] c h = picked c h (inl refl)
search-IsPicked need (b ∷ bs) c h = elim (Bool-cases (leb need b.size && better b (some c))) [
  | inr f ↦ rw (search, f) (past-IsPicked need c b bs _ (search-IsPicked need bs c h))
  | inl f ↦
      let n : need ≤ b.size =
        leb→le need b.size (and_left (leb need b.size) (better b (some c)) f) in
      elim (Bool-cases (ltb (b.size - need) 16)) [
        | inl s ↦ rw (search, f, s) (picked b n (inr (inl refl)))
        | inr s ↦ rw (search, f, s) (later-IsPicked need c b bs _ (search-IsPicked need bs b n))
      ]
]

picked-IsSearched :
    (need : ℕ) (b : Block) (bs : List Block) (o : Option Block)
    → IsPicked need b bs o
    → IsSearched need (b ∷ bs) o
picked-IsSearched need b bs _ (picked c n i) = hit c n i

past-IsSearched :
    (need : ℕ) (b : Block) (bs : List Block) (o : Option Block)
    → b.size < need
    → IsSearched need bs o
    → IsSearched need (b ∷ bs) o
past-IsSearched need b bs _ l (missed m) = missed (l, m)
past-IsSearched need b bs _ l (hit c n i) = hit c n (inr i)

search-IsSearched : (need : ℕ) (bs : List Block) → IsSearched need bs (search need bs none)
unfolding search
search-IsSearched need [] = missed tt
search-IsSearched need (b ∷ bs) = elim (Bool-cases (leb need b.size)) [
  | inr f ↦
      rw (search, f)
        (past-IsSearched need b bs _ (leb→gt need b.size f) (search-IsSearched need bs))
  | inl f ↦
      let n = leb→le need b.size f in
      elim (Bool-cases (ltb (b.size - need) 16)) [
        | inl s ↦ rw (search, f, s) (hit b n (inl refl))
        | inr s ↦ rw (search, f, s) (picked-IsSearched need b bs _ (search-IsPicked need bs b n))
      ]
]

further :
    (need : ℕ) (bin : List Block) (bins : List (List Block)) (o : Option Block)
    → TooSmall need bin
    → IsSearchedBins need bins o
    → IsSearchedBins need (bin ∷ bins) o
further need bin bins _ m (missed_all ms) = missed_all (m, ms)
further need bin bins _ m (hit_one b n i) = hit_one b n (inr i)

next-IsSearchedBins :
    (need : ℕ) (bin : List Block) (bins : List (List Block)) (o : Option Block)
    → IsSearched need bin o
    → IsSearchedBins need bins (search_bins need bins)
    → IsSearchedBins need (bin ∷ bins) (elim o [ none ↦ search_bins need bins | some b ↦ some b ])
next-IsSearchedBins need bin bins _ (hit b n i) k = hit_one b n (inl i)
next-IsSearchedBins need bin bins _ (missed m) k = further need bin bins _ m k

search_bins-IsSearchedBins :
    (need : ℕ) (bins : List (List Block)) → IsSearchedBins need bins (search_bins need bins)
unfolding search_bins
search_bins-IsSearchedBins need [] = missed_all tt
search_bins-IsSearchedBins need (bin ∷ bins) =
    next-IsSearchedBins need bin bins _ (search-IsSearched need bin)
      (search_bins-IsSearchedBins need bins)

-- The native grouping, from bin `k` on: bin `i` of the first eight has the blocks of sizes from
-- `32 * i` on and below `32 * (i + 1)`, the last all the larger ones.
abbrev pub AreBinned : ℕ → List (List Block) → Type 0
AreBinned k [] = Unit
AreBinned k (bin ∷ bins) = All (λ b. (8 ≤ k) ⊎ (b.size / 32 ≡ k)) bin × AreBinned (suc k) bins

below-TooSmall :
    (need k : ℕ) (bs : List Block)
    → k < 8
    → k < need / 32
    → All (λ b. (8 ≤ k) ⊎ (b.size / 32 ≡ k)) bs
    → TooSmall need bs
below-TooSmall need k [] l m a = tt
below-TooSmall need k (b ∷ bs) l m a = (
  elim a.0 [ inl p ↦ absurd (omega arith) | inr p ↦ omega arith ],
  below-TooSmall need k bs l m a.1,
)

-- The bins that the search starts after hold only blocks that are too small.
skipped :
    (need n k : ℕ) (bins : List (List Block)) (o : Option Block)
    → k + n ≤ 8
    → k + n ≤ need / 32
    → AreBinned k bins
    → IsSearchedBins need (drop n bins) o
    → IsSearchedBins need bins o
skipped need zero k bins o l m a h = h
skipped need (suc n) k [] o l m a h = h
skipped need (suc n) k (bin ∷ bins) o l m a h =
    further need bin bins o (below-TooSmall need k bin (omega arith) (omega arith) a.0)
      (skipped need n (suc k) bins o (omega arith) (omega arith) a.1 h)

first_bin-le : (need : ℕ) → (first_bin need ≤ 8) × (first_bin need ≤ need / 32)
unfolding first_bin
first_bin-le need = ground arith

-- Where the free blocks are grouped by size as the game groups them, the search of an arena finds a
-- block of the size needed wherever one is free, in whichever bin, and misses only where every free
-- block of the arena is too small.
pub arena_find_free-IsSearchedBins :
    (bins : List (List Block)) (need : ℕ)
    → AreBinned 0 bins
    → IsSearchedBins need bins (arena_find_free bins need)
unfolding arena_find_free
arena_find_free-IsSearchedBins bins need a =
    let l = first_bin-le need in
    skipped need (first_bin need) 0 bins _ (omega (arith, l.0)) (omega (arith, l.1)) a
      (search_bins-IsSearchedBins need (drop (first_bin need) bins))

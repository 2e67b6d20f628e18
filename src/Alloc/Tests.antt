-- ===== src/Alloc/Tests.antt =====
-- An arena with three free blocks: the theorem on its search at it.
use wc3env.Prelude.{ℕ, refl, inr, List, [], ◌∷◌}
use wc3env.Alloc.{Block, arena_find_free}
use wc3env.Alloc.Search.{AreBinned, IsSearchedBins, arena_find_free-IsSearchedBins}

abbrev block : ℕ → Block
block size = record { size = size; address = 0 }

abbrev bins : List (List Block)
bins = [] ∷ (block 40 ∷ block 60 ∷ []) ∷ (block 90 ∷ []) ∷ [] ∷ []

bins-AreBinned : AreBinned 0 bins
bins-AreBinned = (tt, ((inr refl, (inr refl, tt)), ((inr refl, tt), (tt, tt))))

arena_find_free-IsSearchedBins_example : IsSearchedBins 50 bins (arena_find_free bins 50)
arena_find_free-IsSearchedBins_example = arena_find_free-IsSearchedBins bins 50 bins-AreBinned

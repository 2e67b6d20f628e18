-- ===== src/Placement.antt =====
-- wc3hook/placement.c: where a building goes. The engine's own search (`search_once`), the footprints
-- and the arithmetic of floats are parameters.
pub mod Clear
pub mod Tests
use wc3env.Prelude.{
  ℕ, zero, suc, ◌+◌, ◌-◌, ◌*◌, Bool, true, false, not, ◌&&◌, ◌||◌, Option, none, some, List, [],
  ◌∷◌, ◌++◌, if◌then◌else◌, ltb, ◌==◌, max,
}

-- `diagonal` is 0.7071f, `abs` is fabsf and `below` is `<`.
pub record Floats (Real : Type 0) : Type 0 where
  pub of_int : ℕ → Real
  pub diagonal : Real
  pub negate : Real → Real
  pub plus : Real → Real → Real
  pub minus : Real → Real → Real
  pub times : Real → Real → Real
  pub abs : Real → Real
  pub below : Real → Real → Bool

-- A site that another worker is on its way to; workers are numbers.
pub record PendingSite (Real : Type 0) : Type 0 where
  pub type : ℕ
  pub x : Real
  pub y : Real
  pub worker : ℕ

-- What is asked of `placement_find`.
pub record Request (Real : Type 0) : Type 0 where
  pub worker : ℕ
  pub type : ℕ
  pub x : Real
  pub y : Real
  pub pending : List (PendingSite Real)
  pub ignore : Option ℕ

-- What the engine's search answers from an anchor: no memory, no site, or a site.
pub data Search (Real : Type 0) : Type 0 where
  failed : Search Real
  no_site : Search Real
  site : Real → Real → Search Real

-- `footprint` is the width and the height of a type, if FOOTPRINTS has it.
module _ (footprint : ℕ → Option (ℕ × ℕ)) where
  pub size_of : ℕ → ℕ × ℕ
  size_of type = elim (footprint type) [ none ↦ (128, 128) | some wh ↦ wh ]

  -- The distance from one anchor to the next.
  pub step_of : ℕ → ℕ
  step_of type = elim (footprint type) [ none ↦ 128 | some wh ↦ max (max wh.0 wh.1) 128 ]

  module _ {Real : Type 0} (f : Floats Real) where
    pub overlaps : ℕ → Real → Real → PendingSite Real → Bool
    overlaps type x y p =
        f.below (f.times (f.of_int 2) (f.abs (f.minus x p.x)))
          (f.of_int ((size_of type).0 + (size_of p.type).0))
        && f.below (f.times (f.of_int 2) (f.abs (f.minus y p.y)))
            (f.of_int ((size_of type).1 + (size_of p.type).1))

    -- The site of the worker that is to be ignored never counts.
    abbrev pub ignored : Option ℕ → PendingSite Real → Bool
    ignored none p = false
    ignored (some w) p = p.worker == w

    pub clear : ℕ → Option ℕ → Real → Real → List (PendingSite Real) → Bool
    clear type ignore x y [] = true
    clear type ignore x y (p ∷ ps) =
        (ignored ignore p || not (overlaps type x y p)) && clear type ignore x y ps

    -- DIRS.
    pub direction : ℕ → Real × Real
    direction d =
        let one = f.of_int 1 in
        let nought = f.of_int 0 in
        let diag = f.diagonal in
        if d == 0
        then (one, nought)
        else if d == 1
        then (diag, diag)
        else if d == 2
        then (nought, one)
        else if d == 3
        then (f.negate diag, diag)
        else if d == 4
        then (f.negate one, nought)
        else if d == 5
        then (f.negate diag, f.negate diag)
        else if d == 6
        then (nought, f.negate one)
        else (diag, f.negate diag)

    -- The anchor of a ring and a direction.
    pub anchor : ℕ → Real → Real → ℕ → ℕ → Real × Real
    anchor type x y ring d =
        let far = f.times (f.of_int ring) (f.of_int (step_of type)) in
        (f.plus x (f.times far (direction d).0), f.plus y (f.times far (direction d).1))

    -- The search of the engine, of a worker and a type, from an anchor.
    module _ (search_once : ℕ → ℕ → Real × Real → Search Real) where
      -- A site that is not clear counts as none.
      pub try_anchor : Request Real → ℕ × ℕ → Search Real
      try_anchor r (ring, d) = elim (search_once r.worker r.type (anchor r.type r.x r.y ring d)) [
        | failed ↦ failed
        | no_site ↦ no_site
        | site sx sy ↦ if clear r.type r.ignore sx sy r.pending then site sx sy else no_site
      ]

      -- The loops, over the rings and directions that are left.
      pub try_anchors : Request Real → List (ℕ × ℕ) → Search Real
      try_anchors r [] = no_site
      try_anchors r (a ∷ as') =
          let rest = try_anchors r as' in
          elim (try_anchor r a) [ failed ↦ failed | no_site ↦ rest | site sx sy ↦ site sx sy ]

-- The directions from `d` on of a ring.
pub turns : ℕ → ℕ → ℕ → List (ℕ × ℕ)
turns ring d zero = []
turns ring d (suc left) = (ring, d) ∷ turns ring (suc d) left

-- The rings from `ring` on.
pub rings : ℕ → ℕ → List (ℕ × ℕ)
rings ring zero = []
rings ring (suc left) = turns ring 0 (if ring == 0 then 1 else 8) ++ rings (suc ring) left

module _ (footprint : ℕ → Option (ℕ × ℕ)) {Real : Type 0} (f : Floats Real)
    (search_once : ℕ → ℕ → Real × Real → Search Real) where
  pub placement_find : Request Real → Search Real
  placement_find r = try_anchors footprint f search_once r (rings 0 4)

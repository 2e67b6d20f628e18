-- ===== src/Placement/Tests.antt =====
-- wc3hook/placement.c: a search at a concrete point. The engine answers with the anchor itself.
use wc3env.Prelude.{ℕ, ◌+◌, ◌-◌, ◌*◌, Option, none, some, [], ◌∷◌, ltb}
use wc3env.Placement.{Floats, Request, Search, site, rings, placement_find}
use wc3env.Placement.Clear.{IsPlaced, placement_find-IsPlaced}

-- Whole numbers in place of floats.
abbrev whole : Floats ℕ
whole = record {
  of_int = λ n. n;
  diagonal = 1;
  negate = λ a. 0;
  plus = λ a b. a + b;
  minus = λ a b. (a - b) + (b - a);
  times = λ a b. a * b;
  abs = λ a. a;
  below = ltb;
}

abbrev footprints : ℕ → Option (ℕ × ℕ)
footprints type = none

abbrev echo : ℕ → ℕ → ℕ × ℕ → Search ℕ
echo worker type at = site at.0 at.1

-- Another worker is on its way to the point itself.
abbrev request : Request ℕ
request = record {
  worker = 1;
  type = 100;
  x = 1000;
  y = 1000;
  pending = record { type = 200; x = 1000; y = 1000; worker = 2 } ∷ [];
  ignore = some 1;
}

placement_find-IsPlaced_example :
    IsPlaced footprints whole echo request
      (rings 0 4)
      (placement_find footprints whole echo request)
placement_find-IsPlaced_example = placement_find-IsPlaced footprints whole echo request

-- ===== src/Setup/Tests.antt =====
-- A small map: the theorems on the configuration of a match at inputs.
use wc3env.Prelude.{ℕ, ◌≡◌, refl, true, false, some, List, [], ◌∷◌, arith, length}
use wc3env.Setup.{Setup, permute, race_hook, controller_hook}
use wc3env.Setup.Shuffle.{count, permute-count}
use wc3env.Setup.Starts.{IsApart, assign_starts, assign_starts-IsApart}
use wc3env.Setup.Final.{Call, located, start, hold, calls, calls-held}

abbrev four : List ℕ
four = 0 ∷ 1 ∷ 2 ∷ 5 ∷ []

permute-count_example :
    (count 5 (permute 3 12345 four) ≡ count 5 four) × (length (permute 3 12345 four) ≡ length four)
permute-count_example = permute-count 3 12345 5 four (omega arith)

abbrev setup : Setup
setup = record {
  enabled = true;
  closed = true;
  seed = 7;
  shuffle = true;
  shuffled = true;
  bad_locations = false;
  seen_config = true;
  players = 0 ∷ 1 ∷ [];
  computers = 1 ∷ [];
  defined = four;
  slot_starts = 0 ∷ 1 ∷ [];
  races = λ p. 0;
  xy = λ i. (i, i);
}

assign_starts-IsApart_example :
    IsApart four (assign_starts (λ p. some 2) (record setup { closed = false }))
assign_starts-IsApart_example =
    assign_starts-IsApart (λ p. some 2) (record setup { closed = false })

abbrev some_calls : List Call
some_calls = located (some 3) (0, 0) ∷ start (some 1) (some 2) ∷ []

abbrev open_setup : Setup
open_setup = record setup { closed = false }

calls-held_example :
    (calls (hold ∷ some_calls) open_setup ≡ setup)
    × (race_hook (calls (hold ∷ some_calls) open_setup) 1 4 ≡ 4)
    × (controller_hook (calls (hold ∷ some_calls) open_setup) 1 0 ≡ 0)
    × (assign_starts (λ p. some 2) (calls (hold ∷ some_calls) open_setup) ≡ [])
calls-held_example = calls-held some_calls open_setup 1 4 0 (λ p. some 2) refl

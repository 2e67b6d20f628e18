-- ===== src/Players/Tests.antt =====
-- A game with one player in its table: the theorem on identities at it.
use wc3env.Prelude.{◌+◌, ◌-◌, [], ◌∷◌, some, none}
use wc3env.Players.{enroll, used_in, Table}
use wc3env.Players.Fresh.{IsEnrolled, enroll-IsEnrolled}

abbrev table : Table
table = (some (record { wire = 1; slot = 0 }) ∷ none ∷ []) ∷ [] ∷ []

enroll-IsEnrolled_example :
    IsEnrolled
      (used_in table)
      (3 ∷ 4 ∷ [])
      (enroll (λ id. (id - 1) + 0x80) (used_in table) (3 ∷ 4 ∷ []))
enroll-IsEnrolled_example = enroll-IsEnrolled (λ id. (id - 1) + 0x80) (used_in table) (3 ∷ 4 ∷ [])

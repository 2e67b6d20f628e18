-- ===== src/Rpc/Binary/Players.antt =====
-- wc3hook/rpc.c: the players that a step is asked to observe.
use wc3env.Prelude.{
  ℕ, ◌≤◌, ◌<◌, ◌≡◌, ◌≢◌, ◌⊎◌, refl, ap, sym, ◌∙◌, subst, inl, inr, Bool, true, false, Option, none,
  some, List, [], ◌∷◌, ◌++◌, ◌&&◌, ◌||◌, not, ◌==◌, if◌then◌else◌, ltb, length, All, arith,
  Bool-cases, ==→eq, eq→==, ==→ne, ne→==, ltb→lt, ltb→ge,
}
use mathlib.Core.List.{append-nil, append_assoc}
use wc3env.Prelude.Int.{ℤ, pos, negsuc}
use wc3env.Rpc.{Yyjson, given, is_list, items, slot_of}
use wc3env.Rpc.Binary.{
  has, Chosen, players, twice, no_mapping, no_slots, add_players, binary_players, slots, and_slot,
  binary_list,
}

-- No number twice.
abbrev pub IsDistinct : List ℕ → Type 0
IsDistinct [] = Unit
IsDistinct (p ∷ ps) = (has ps p ≡ false) × IsDistinct ps

has-append : (xs ys : List ℕ) (p : ℕ) → has (xs ++ ys) p ≡ (has xs p || has ys p)
has-append [] ys p = refl
has-append (x ∷ xs) ys p = cases (x == p) (has-append xs ys p)
  where
    cases :
        (b : Bool)
        → has (xs ++ ys) p ≡ (has xs p || has ys p)
        → (b || has (xs ++ ys) p) ≡ ((b || has xs p) || has ys p)
    cases true e = refl
    cases false e = e

-- A number that is there already.
repeated : (xs ps : List ℕ) (p : ℕ) → has xs p ≡ true → IsDistinct (xs ++ (p ∷ ps)) → ⊥
repeated [] ps p e d = absurd (ground arith)
repeated (x ∷ xs) ps p e (hx, d) = elim (Bool-cases (x == p)) [
  | inl q ↦ found (==→eq x p q)
  | inr q ↦ repeated xs ps p (rw q at e) d
]
  where
    found : x ≡ p → ⊥
    found q = no_more (has xs x) (p == x) (eq→== p x (sym q)) (sym (has-append xs (p ∷ ps) x) ∙ hx)
      where
        no_more : (a b : Bool) → b ≡ true → (a || (b || has ps x)) ≡ false → ⊥
        no_more true b h k = absurd (ground arith)
        no_more false true h k = absurd (ground arith)
        no_more false false h k = absurd (ground arith)

or_false : (a b : Bool) → (a || b) ≡ false → (a ≡ false) × (b ≡ false)
or_false true b e = absurd (ground arith)
or_false false b e = (refl, e)

differ : (x p : ℕ) → (x == p) ≡ false → (p == x) ≡ false
differ x p e = ne→== p x λ q. ==→ne x p e (sym q)

IsDistinct-snoc :
    (xs : List ℕ) (p : ℕ) → IsDistinct xs → has xs p ≡ false → IsDistinct (xs ++ (p ∷ []))
IsDistinct-snoc [] p d e = (refl, tt)
IsDistinct-snoc (x ∷ xs) p (hx, d) e = (
  has-append xs (p ∷ []) x ∙ not_there _ _ hx (differ x p (or_false _ _ e).0),
  IsDistinct-snoc xs p d (or_false _ _ e).1,
)
  where
    not_there : (a b : Bool) → a ≡ false → b ≡ false → (a || (b || false)) ≡ false
    not_there true b h k = absurd (ground arith)
    not_there false true h k = absurd (ground arith)
    not_there false false h k = refl

-- What becomes of the players that are named, if the mapping can be made or not.
pub data IsChosen (mapped : Bool) (ps : List ℕ) : Chosen → Type 0 where
  chosen : (ps ≡ []) ⊎ (mapped ≡ true) → IsDistinct ps → IsChosen mapped ps (players ps)
  repeats : (IsDistinct ps → ⊥) → IsChosen mapped ps twice
  unmapped : mapped ≡ false → ps ≢ [] → IsChosen mapped ps no_mapping

add_players-IsChosen :
    (mapped : Bool) (xs ps : List ℕ)
    → IsDistinct xs
    → IsChosen mapped (xs ++ ps) (add_players mapped xs ps)
unfolding add_players
add_players-IsChosen mapped xs [] d = rw append-nil (by_tests xs d mapped refl)
  where
    by_tests :
        (ys : List ℕ)
        → IsDistinct ys
        → (m : Bool) → mapped ≡ m
        → IsChosen mapped ys (if not (length ys == 0) && not m then no_mapping else players ys)
    by_tests [] h m e = chosen (inl refl) h
    by_tests (y ∷ ys) h true e =
        rw (ne→== (length (y ∷ ys)) 0 (λ n. omega arith)) (chosen (inr e) h)
    by_tests (y ∷ ys) h false e =
        rw (ne→== (length (y ∷ ys)) 0 (λ n. omega arith)) (unmapped e (λ n. cc))
add_players-IsChosen mapped xs (p ∷ ps) d = elim (Bool-cases (has xs p)) [
  | inl e ↦ rw e (repeats (repeated xs ps p e))
  | inr e ↦ rw e (
      subst (λ t. IsChosen mapped t (add_players mapped (xs ++ (p ∷ [])) ps))
        (append_assoc xs (p ∷ []) ps)
        (add_players-IsChosen mapped (xs ++ (p ∷ [])) ps (IsDistinct-snoc xs p d e)))
]

slot_of-lt : (o : Option ℤ) (p : ℕ) → slot_of o ≡ some p → p < 16
unfolding slot_of
slot_of-lt none p e = absurd (ground arith)
slot_of-lt (some (negsuc n)) p e = absurd (ground arith)
slot_of-lt (some (pos n)) p e = in_range (ltb n 16) refl e
  where
    in_range : (b : Bool) → ltb n 16 ≡ b → (if b then some n else none) ≡ some p → p < 16
    in_range true h q =
        subst (λ k. k < 16) (ap (λ o. elim o as (λ o. ℕ) [ none ↦ 0 | some c ↦ c ]) q)
          (ltb→lt n 16 h)
    in_range false h q = absurd (ground arith)

module _ {Val Num : Type 0} (y : Yyjson Val Num) where
  -- Slots, as many as there are values.
  data AreSlots (vs : List Val) : Option (List ℕ) → Type 0 where
    all_slots : (ps : List ℕ) → All (λ p. p < 16) ps → length ps ≡ length vs → AreSlots vs (some ps)
    not_slots : AreSlots vs none

  and_slot-AreSlots :
      (v : Val) (vs : List Val) (o : Option ℕ) (r : Option (List ℕ))
      → ((p : ℕ) → o ≡ some p → p < 16)
      → AreSlots vs r
      → AreSlots (v ∷ vs) (and_slot y o r)
  and_slot-AreSlots v vs none r h a = not_slots
  and_slot-AreSlots v vs (some p) _ h not_slots = not_slots
  and_slot-AreSlots v vs (some p) _ h (all_slots ps k l) =
      all_slots (p ∷ ps) (h p refl, k) (omega (arith, l))

  slots-AreSlots : (vs : List Val) → AreSlots vs (slots y vs)
  unfolding slots
  slots-AreSlots [] = all_slots [] tt refl
  slots-AreSlots (v ∷ vs) = and_slot-AreSlots v vs _ _ (slot_of-lt _) (slots-AreSlots vs)

  -- What becomes of a list of slots.
  pub data IsListed (mapped : Bool) (list : Option Val) : Chosen → Type 0 where
    listed :
        (ps : List ℕ)
        → slots y (items y list) ≡ some ps
        → All (λ p. p < 16) ps
        → IsDistinct ps
        → length ps ≤ 16
        → (list ≡ none) ⊎ (is_list y list ≡ true)
        → (ps ≡ []) ⊎ (mapped ≡ true)
        → IsListed mapped list (players ps)
    listed_twice :
        (ps : List ℕ)
        → slots y (items y list) ≡ some ps
        → (IsDistinct ps → ⊥)
        → IsListed mapped list twice
    no_view :
        (ps : List ℕ)
        → slots y (items y list) ≡ some ps
        → ps ≢ []
        → mapped ≡ false
        → IsListed mapped list no_mapping
    no_list : list ≢ none → is_list y list ≡ false → IsListed mapped list no_slots
    too_long : 16 < length (items y list) → IsListed mapped list no_slots
    no_slot : slots y (items y list) ≡ none → IsListed mapped list no_slots

  chosen_of :
      (mapped : Bool) (list : Option Val) (ps : List ℕ) (c : Chosen)
      → slots y (items y list) ≡ some ps
      → All (λ p. p < 16) ps
      → length ps ≤ 16
      → (list ≡ none) ⊎ (is_list y list ≡ true)
      → IsChosen mapped ps c
      → IsListed mapped list c
  chosen_of mapped list ps _ e h l a (chosen m d) = listed ps e h d l a m
  chosen_of mapped list ps _ e h l a (repeats n) = listed_twice ps e n
  chosen_of mapped list ps _ e h l a (unmapped u n) = no_view ps e n u

  by_slots :
      (mapped : Bool) (list : Option Val) (o : Option (List ℕ))
      → slots y (items y list) ≡ o
      → AreSlots (items y list) o
      → length (items y list) ≤ 16
      → (list ≡ none) ⊎ (is_list y list ≡ true)
      → IsListed mapped list
          (elim o as (λ o. Chosen) [ none ↦ no_slots | some ps ↦ binary_players mapped ps ])
  unfolding binary_players
  by_slots mapped list _ e not_slots l a = no_slot e
  by_slots mapped list _ e (all_slots ps h k) l a =
      chosen_of mapped list ps _ e h (omega (arith, k, l)) a (add_players-IsChosen mapped [] ps tt)

  -- A step's players to observe are taken only if they are not given or are a list, of at most sixteen
  -- slots from 0 to 15, none twice, and the mapping is there unless there are none; so no more are taken
  -- than a job has places for. They are refused only if they are given and no list, more than sixteen,
  -- have a value that is no slot or a slot twice, or are some and the mapping is not there.
  pub binary_list-IsListed :
      (mapped : Bool) (list : Option Val) → IsListed mapped list (binary_list y mapped list)
  unfolding binary_list given
  binary_list-IsListed mapped none =
      by_slots mapped none _ refl (slots-AreSlots (items y none)) (unfold items in omega arith)
        (inl refl)
  binary_list-IsListed mapped (some v) =
      by_tests (is_list y (some v)) (ltb 16 (length (items y (some v)))) refl refl
    where
      by_tests :
          (a b : Bool)
          → is_list y (some v) ≡ a
          → ltb 16 (length (items y (some v))) ≡ b
          → IsListed mapped (some v) (
              if not a || b then no_slots else (elim (slots y (items y (some v))) as (λ o. Chosen) [
                | none ↦ no_slots
                | some ps ↦ binary_players mapped ps
              ]))
      by_tests false b e l = no_list (λ n. cc) e
      by_tests true true e l = too_long (ltb→lt 16 _ l)
      by_tests true false e l =
          by_slots mapped (some v) _ refl (slots-AreSlots (items y (some v))) (ltb→ge 16 _ l)
            (inr e)

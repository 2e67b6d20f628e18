-- ===== src/Rpc/Parse/Sound.antt =====
-- wc3hook/rpc.c, act_parse: what holds of the actions that are passed on without a reason against them.
use wc3env.Prelude.{
  ℕ, suc, ◌+◌, ◌^◌, ◌≤◌, ◌<◌, ◌≡◌, ◌≢◌, ◌⊎◌, inl, inr, refl, ap, subst, ◌∙◌, Bool, true, false,
  Option, none, some, List, [], ◌∷◌, ◌&&◌, ◌||◌, not, ◌==◌, ◌++◌, if◌then◌else◌, leb, length, All,
  arith, leb→le, ==→eq, ne→==,
}
use wc3env.Prelude.Int.{ℤ, pos, negsuc}
use wc3env.Json.{Bytes, codes, jr_str}
use wc3env.Rpc.{Yyjson, same_text, get, given, items, int, str, or_empty}
use wc3env.Act.Game.{ok, unknown_command, bad_args}
use wc3env.Rpc.Parse.{
  Parsed, Batch, parsed, malformed, no_memory, known, immediate, one_of, any_of, int_or_zero, is_id,
  slot_in, is_type, far_point, flag, bad_id, bad_type, bad_point, bad_arguments, arguments,
  parse_args, parse_item, parse_from, act_parse, item_of, and_item,
}

-- A unit or none: 0, or an id of 32 bits.
abbrev pub IsUnit : ℤ → Type 0
IsUnit t = (n : ℕ) × (t ≡ pos n) × (n < 2 ^ 32)

-- The text of a type, or none.
abbrev pub IsTypeText : Bytes → Type 0
IsTypeText s = (s ≡ []) ⊎ (length s ≡ 4)

module _ {Val Num : Type 0} (y : Yyjson Val Num) (far : Num → Bool) where
  -- What an action that is not rejected keeps to.
  pub data IsSound (i : Parsed Num) : Type 0 where
    sound :
        one_of known i.command ≡ true
        → IsUnit i.target
        → IsUnit i.shop
        → ((n : ℕ) → i.slot ≡ some n → n ≤ 5)
        → IsTypeText i.type_id
        → IsTypeText i.item_type
        → far_point y far i.point ≡ false
        → (i.queued ≡ true → one_of immediate i.command ≡ false)
        → (i.auto_place ≡ true → same_text i.command (codes "build") ≡ true)
        → IsSound i

or_false : (a b : Bool) → (a || b) ≡ false → (a ≡ false) × (b ≡ false)
or_false true b e = absurd (ground arith)
or_false false b e = (refl, e)

and_false : (a b : Bool) → (a && b) ≡ false → a ≡ true → b ≡ false
and_false true b e h = e
and_false false b e h = ground arith

not-false : (a : Bool) → not a ≡ false → a ≡ true
not-false true e = refl
not-false false e = absurd (ground arith)

is_id-IsUnit : (o : Option ℤ) → is_id o ≡ true → IsUnit (int_or_zero o)
unfolding is_id int_or_zero
is_id-IsUnit none e = absurd (ground arith)
is_id-IsUnit (some (pos t)) e = (t, refl, ground arith)
is_id-IsUnit (some (negsuc t)) e = absurd (ground arith)

slot_in-le : (o : Option ℤ) (n : ℕ) → slot_in o ≡ some n → n ≤ 5
unfolding slot_in
slot_in-le none n e = absurd (ground arith)
slot_in-le (some (pos m)) n e = in_range (leb m 5) refl e
  where
    in_range : (b : Bool) → leb m 5 ≡ b → (if b then some m else none) ≡ some n → n ≤ 5
    in_range true h e =
        subst (λ k. k ≤ 5) (ap (λ o. elim o as (λ o. ℕ) [ none ↦ 0 | some k ↦ k ]) e) (leb→le m 5 h)
    in_range false h e = absurd (ground arith)
slot_in-le (some (negsuc m)) n e = absurd (ground arith)

any_of-All : (bs : List Bool) → any_of bs ≡ false → All (λ b. b ≡ false) bs
unfolding any_of
any_of-All [] e = tt
any_of-All (b ∷ bs) e = ((or_false b (any_of bs) e).0, any_of-All bs (or_false b (any_of bs) e).1)

-- A text of four bytes fits any array of five or more.
jr_str_four : (o : Option Bytes) → is_type (jr_str o 32) ≡ true → IsTypeText (or_empty (jr_str o 8))
unfolding is_type jr_str
jr_str_four none e = inl refl
jr_str_four (some s) e = shorter _ _ e
  where
    shorter :
        (b c : Bool)
        → is_type (if b then none else some s) ≡ true
        → IsTypeText (or_empty (if c then none else some s))
    shorter true c h = absurd (ground arith)
    shorter false true h = inl refl
    shorter false false h = inr (==→eq (length s) 4 h)

module _ {Val Num : Type 0} (y : Yyjson Val Num) (far : Num → Bool) where
  bad_type-IsTypeText :
      (v : Option Val) → bad_type y far v ≡ false → IsTypeText (or_empty (str y v 8))
  unfolding bad_type str given
  bad_type-IsTypeText none e = inl refl
  bad_type-IsTypeText (some v) e = jr_str_four (y.get_str v) (not-false _ e)

  bad_id-IsUnit : (v : Option Val) → bad_id y far v ≡ false → IsUnit (int_or_zero (int y v))
  unfolding bad_id int given int_or_zero
  bad_id-IsUnit none e = (0, refl, omega arith)
  bad_id-IsUnit (some v) e = is_id-IsUnit _ (not-false _ e)

  -- The reason of an action with good arguments and a known command only is none.
  reason_ok :
      (command : Bytes) (args : Option Val) (unit_id : ℤ)
      → (parse_args y far unit_id command args).reason ≡ ok
      → (one_of known command ≡ true) × (bad_arguments y far command args ≡ false)
  unfolding parse_args
  reason_ok command args unit_id e =
      by_tests (one_of known command) (bad_arguments y far command args) e
    where
      by_tests :
          (k b : Bool)
          → (if not k then unknown_command else if b then bad_args else ok) ≡ ok
          → (k ≡ true) × (b ≡ false)
      by_tests true true e = absurd (ground arith)
      by_tests true false e = (refl, refl)
      by_tests false b e = absurd (ground arith)

  flag-given : (v : Option Val) → flag y far v ≡ true → given y v ≡ true
  unfolding flag given
  flag-given none e = absurd (ground arith)
  flag-given (some v) e = refl

  -- With good arguments each field is as it should be.
  arguments-IsSound :
      (unit_id : ℤ) (command : Bytes) (args : Option Val)
      → one_of known command ≡ true
      → All (λ b. b ≡ false) (arguments y far command args)
      → IsSound y far (parse_args y far unit_id command args)
  unfolding parse_args bad_point arguments
  arguments-IsSound unit_id command args k
        (
          _,
          (_, (place, (point, (target, (shop, (_, (type, (item, (ability, (_, (queue, _))))))))))),
        ) =
      sound k (bad_id-IsUnit _ target) (bad_id-IsUnit _ shop) (slot_in-le _)
        (type_text (same_text command (codes "learn"))) (bad_type-IsTypeText _ item)
        (or_false _ _ point).0 (and_false _ _ queue)
        (λ q. not-false _ (and_false _ _ place (flag-given _ q)))
    where
      type_text :
          (b : Bool)
          → IsTypeText
              (or_empty (str y (get y args (if b then codes "ability_id" else codes "type_id")) 8))
      type_text true = bad_type-IsTypeText _ ability
      type_text false = bad_type-IsTypeText _ type

  item_of-IsSound :
      (u : Option ℤ) (c : Option Bytes) (good : Bool) (args : Option Val) (i : Parsed Num)
      → item_of y far u c good args ≡ some i
      → i.reason ≡ ok
      → IsSound y far i
  unfolding bad_arguments
  item_of-IsSound none c good args i e h = absurd (ground arith)
  item_of-IsSound (some u) none good args i e h = absurd (ground arith)
  item_of-IsSound (some u) (some c) false args i e h = absurd (ground arith)
  item_of-IsSound (some u) (some c) true args i e h =
      subst (IsSound y far) same (of_reason (reason_ok c args u (ap (λ j. j.reason) same ∙ h)))
    where
      same : parse_args y far u c args ≡ i
      same = ap (λ o. elim o as (λ o. Parsed Num) [ none ↦ i | some j ↦ j ]) e

      of_reason :
          (one_of known c ≡ true) × (bad_arguments y far c args ≡ false)
          → IsSound y far (parse_args y far u c args)
      of_reason (k, b) = arguments-IsSound u c args k (any_of-All _ b)

  parse_item-IsSound :
      (v : Val) (i : Parsed Num) → parse_item y far v ≡ some i → i.reason ≡ ok → IsSound y far i
  unfolding parse_item
  parse_item-IsSound v i e h = item_of-IsSound _ _ _ _ i e h

  -- The actions of these values, in their order.
  pub data AreParsed : List Val → List (Parsed Num) → Type 0 where
    done : AreParsed [] []
    next :
        {v : Val} {i : Parsed Num} {vs : List Val} {is : List (Parsed Num)}
        → parse_item y far v ≡ some i
        → (i.reason ≡ ok → IsSound y far i)
        → AreParsed vs is
        → AreParsed (v ∷ vs) (i ∷ is)

  -- What becomes of the actions from place `k` on, once there is memory for them.
  pub data IsRead (k : ℕ) (vs : List Val) : Batch Num → Type 0 where
    whole : (is : List (Parsed Num)) → AreParsed vs is → IsRead k vs (parsed is)
    stopped :
        (front back : List Val) (v : Val) (is : List (Parsed Num))
        → vs ≡ front ++ (v ∷ back)
        → AreParsed front is
        → parse_item y far v ≡ none
        → (j : ℕ) → j ≡ k + length front
        → IsRead k vs (malformed j)

  -- What becomes of a batch: it is read if there is memory for it, or if it has no action, which
  -- needs none; otherwise, and only then, it fails for want of memory.
  pub data IsBatch (allocated : Bool) (vs : List Val) : Batch Num → Type 0 where
    read : {b : Batch Num} → (vs ≡ []) ⊎ (allocated ≡ true) → IsRead 0 vs b → IsBatch allocated vs b
    unallocated : allocated ≡ false → vs ≢ [] → IsBatch allocated vs no_memory

  and_item-IsRead :
      (k : ℕ) (v : Val) (i : Parsed Num) (vs : List Val) (b : Batch Num)
      → parse_item y far v ≡ some i
      → IsRead (suc k) vs b
      → IsRead k (v ∷ vs) (and_item y far i b)
  and_item-IsRead k v i vs _ e (whole is p) = whole (i ∷ is) (next e (parse_item-IsSound v i e) p)
  and_item-IsRead k v i vs _ e (stopped front back w is p q n j h) =
      stopped (v ∷ front) back w (i ∷ is) (ap (λ t. v ∷ t) p) (next e (parse_item-IsSound v i e) q)
        n j (omega (arith, h))

  parse_from-IsRead : (k : ℕ) (vs : List Val) → IsRead k vs (parse_from y far k vs)
  unfolding parse_from
  parse_from-IsRead k [] = whole [] done
  parse_from-IsRead k (v ∷ vs) = by_item (parse_item y far v) refl (parse_from-IsRead (suc k) vs)
    where
      by_item :
          (o : Option (Parsed Num))
          → parse_item y far v ≡ o
          → IsRead (suc k) vs (parse_from y far (suc k) vs)
          → IsRead k (v ∷ vs) (elim o as (λ o. Batch Num) [
            | none ↦ malformed k
            | some i ↦ and_item y far i (parse_from y far (suc k) vs)
          ])
      by_item none e r = stopped [] vs v [] refl done e k (omega arith)
      by_item (some i) e r = and_item-IsRead k v i vs _ e r

  -- A batch is parsed action by action, in order, up to the first that is malformed, whose place the
  -- error names. An action that is not marked rejected has a known command; its target and its shop are
  -- none or ids of 32 bits, its slot is none or 0 to 5, its types are none or of four characters, its
  -- point is not out of range; it is queued only if its command may be, and placed by the game only if
  -- it builds. A batch that has actions is read just when there is memory for them; without it there is
  -- none.
  pub act_parse-IsBatch :
      (allocated : Bool) (actions : Option Val)
      → IsBatch allocated (items y actions) (act_parse y far allocated actions)
  unfolding act_parse
  act_parse-IsBatch allocated actions =
      by_memory (items y actions) allocated refl (parse_from-IsRead 0 (items y actions))
    where
      by_memory :
          (vs : List Val) (a : Bool)
          → allocated ≡ a
          → IsRead 0 vs (parse_from y far 0 vs)
          → IsBatch allocated vs
              (if not (length vs == 0) && not a then no_memory else parse_from y far 0 vs)
      by_memory [] a e r = read (inl refl) r
      by_memory (v ∷ vs) true e r =
          rw (ne→== (length (v ∷ vs)) 0 (λ n. omega arith)) (read (inr e) r)
      by_memory (v ∷ vs) false e r =
          rw (ne→== (length (v ∷ vs)) 0 (λ n. omega arith)) (unallocated e (λ n. cc))

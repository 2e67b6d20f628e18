-- ===== src/Features/Memory/Recall.antt =====
-- wc3hook/features.c: the structures that are remembered after an observation.
use mathlib.Core.Path.{fun_ext}
use wc3env.Prelude.{
  ℕ, ◌≡◌, refl, ap, ◌∙◌, inl, inr, Bool, true, false, not, ◌&&◌, ◌||◌, Option, none, some, List, [],
  ◌∷◌, if◌then◌else◌, ◌==◌, ==→eq, arith, Bool-cases,
}
use wc3env.Features.{Map, map_init, map_put, map_clear, Remembered, remember, forget}
use wc3env.Features.Growth.{IsTable, init-IsTable}
use wc3env.Features.Sets.{has, has-put, has-init, put-IsTable}
use wc3env.Features.Memory.{
  Floats, BinUnit, BinEvent, Obs, FeatDecision, FeatState, is_start, is_kept, see_units, visible_in,
  take_event, take_events, in_sight, gone, update,
}
use wc3env.Features.Memory.Entries.{
  find, IsUnique, find-remember, remember-IsUnique, find-forget, forget-IsUnique, keep, or_else,
  or_else_assoc, find-sweep, sweep-IsUnique,
}

-- A death of the unit is among the events.
pub dies : ℕ → List BinEvent → Bool
dies id [] = false
dies id (e ∷ es) = e.kind == 20 && e.unit_id == id || dies id es

module _ {Real : Type 0} where
  -- The last of the units that is kept and has this id, as it is remembered.
  pub last_shown : ℕ → ℕ → List (BinUnit Real) → Option (Remembered (BinUnit Real))
  last_shown now id [] = none
  last_shown now id (u ∷ us) = or_else (last_shown now id us) (
      if is_kept u && u.unit_id == id
      then some (record { unit_id = u.unit_id; row = u; seen = now })
      else none)

  find-see_units :
      (now id : ℕ) (us : List (BinUnit Real)) (rs : List (Remembered (BinUnit Real)))
      → find id (see_units now us rs) ≡ or_else (last_shown now id us) (find id rs)
  unfolding see_units last_shown
  find-see_units now id [] rs = refl
  find-see_units now id (u ∷ us) rs =
      find-see_units now id us _
      ∙ ap (or_else (last_shown now id us)) (by_kept (is_kept u))
      ∙ or_else_assoc (last_shown now id us) _ (find id rs)
    where
      entry : Remembered (BinUnit Real)
      entry = record { unit_id = u.unit_id; row = u; seen = now }

      by_kept :
          (b : Bool)
          → find id (if b then remember entry rs else rs)
            ≡ or_else (if b && u.unit_id == id then some entry else none) (find id rs)
      by_kept false = refl
      by_kept true = find-remember entry id rs ∙ ground arith

  see_units-IsUnique :
      (now : ℕ) (us : List (BinUnit Real)) (rs : List (Remembered (BinUnit Real)))
      → IsUnique rs
      → IsUnique (see_units now us rs)
  unfolding see_units
  see_units-IsUnique now [] rs h = h
  see_units-IsUnique now (u ∷ us) rs h = see_units-IsUnique now us _ (by_kept (is_kept u))
    where
      by_kept :
          (b : Bool)
          → IsUnique
              (if b then remember (record { unit_id = u.unit_id; row = u; seen = now }) rs else rs)
      by_kept true = remember-IsUnique _ rs h
      by_kept false = h

  find-take_event :
      (now id : ℕ) (e : BinEvent) (st : FeatState Real)
      → IsUnique st.remembered
      → find id (take_event now e st).remembered
        ≡ (if e.kind == 20 && e.unit_id == id then none else find id st.remembered)
  unfolding take_event
  find-take_event now id e st u = elim (Bool-cases (e.kind == 20)) [
    | inl k ↦
        rw (start_not e.kind (==→eq e.kind 20 k)) (rw k (find-forget e.unit_id id st.remembered u))
    | inr k ↦ rw k (by_tests (is_start e.kind) (e.kind == 18))
  ]
    where
      start_not : (k : ℕ) → k ≡ 20 → is_start k ≡ false
      start_not k h = ground arith

      by_tests :
          (a b : Bool)
          → find id
              (if a
                then record st { started = map_put e.unit_id now st.started }
                else if b
                then record st { attacked = map_put e.unit_id 0 st.attacked }
                else st).remembered
            ≡ find id st.remembered
      by_tests true b = refl
      by_tests false true = refl
      by_tests false false = refl

  take_event-IsUnique :
      (now : ℕ) (e : BinEvent) (st : FeatState Real)
      → IsUnique st.remembered
      → IsUnique (take_event now e st).remembered
  unfolding take_event
  take_event-IsUnique now e st u = by_tests (is_start e.kind) (e.kind == 20) (e.kind == 18)
    where
      by_tests :
          (a b c : Bool)
          → IsUnique
              (if a
                then record st { started = map_put e.unit_id now st.started }
                else if b
                then record st { remembered = forget e.unit_id st.remembered }
                else if c
                then record st { attacked = map_put e.unit_id 0 st.attacked }
                else st).remembered
      by_tests true b c = u
      by_tests false true c = forget-IsUnique e.unit_id st.remembered u
      by_tests false false true = u
      by_tests false false false = u

  find-take_events :
      (now id : ℕ) (es : List BinEvent) (st : FeatState Real)
      → IsUnique st.remembered
      → (find id (take_events now es st).remembered
          ≡ (if dies id es then none else find id st.remembered))
        × IsUnique (take_events now es st).remembered
  unfolding take_events dies
  find-take_events now id [] st u = (refl, u)
  find-take_events now id (e ∷ es) st u =
      let (f, v) =
        find-take_events now id es (take_event now e st) (take_event-IsUnique now e st u) in
      (
        f
            ∙ ap (λ o. if dies id es then none else o) (find-take_event now id e st u)
            ∙ either (e.kind == 20 && e.unit_id == id) (dies id es) (find id st.remembered),
        v,
      )
    where
      either :
          (a b : Bool) (o : Option (Remembered (BinUnit Real)))
          → (if b then none else if a then none else o) ≡ (if a || b then none else o)
      either true true o = refl
      either true false o = refl
      either false b o = refl

  -- Some unit has this id.
  pub shows : List (BinUnit Real) → ℕ → Bool
  shows [] id = false
  shows (u ∷ us) id = u.unit_id == id || shows us id

  has-visible_in :
      (us : List (BinUnit Real)) (m : Map ℕ) (id : ℕ)
      → IsTable m
      → has (visible_in us m) id ≡ (shows us id || has m id)
  unfolding visible_in shows
  has-visible_in [] m id t = refl
  has-visible_in (u ∷ us) m id t =
      has-visible_in us (map_put u.unit_id 0 m) id (put-IsTable m u.unit_id 0 t)
      ∙ ap (λ b. shows us id || b) (has-put m u.unit_id id 0 t)
      ∙ swap (u.unit_id == id) (shows us id) (has m id)
    where
      swap : (a b c : Bool) → (b || (a || c)) ≡ (a || b || c)
      swap true true c = refl
      swap true false c = refl
      swap false true c = refl
      swap false false c = refl

  module _ (single d : Floats Real) where
    -- What is known of an id after an observation.
    abbrev pub recalled :
        Obs Real → List (Remembered (BinUnit Real)) → ℕ → Option (Remembered (BinUnit Real))
    recalled o rs id =
        keep (λ row. not (shows o.units row.unit_id) && in_sight single d o.units row)
          (if dies id o.events
            then none
            else or_else (last_shown o.game_time_ms id o.units) (find id rs))

    -- After an observation, no structure is remembered twice, and one is remembered just so: forgotten
    -- if an event tells of its death; else as it was last shown now, a structure of another player or a
    -- neutral one, at this time; else as it was remembered before; but forgotten too if its place is in sight
    -- of an own unit and no unit with its id is shown. The hit points before are those that were known as
    -- the last ones.
    pub update-recalls :
        (o : Obs Real) (last : Option (FeatDecision Real)) (st : FeatState Real)
        → IsUnique st.remembered
        → IsUnique (update single d o last st).remembered
          × ((id : ℕ)
              → find id (update single d o last st).remembered ≡ recalled o st.remembered id)
          × ((update single d o last st).hp_before ≡ st.hp_now)
    unfolding update
    update-recalls o last st u = (
      sweep-IsUnique single d test told.remembered (events 0).1,
      λ id.
          find-sweep single d test id told.remembered (events id).1
          ∙ ap (keep test) (
              (events id).0
              ∙ ap (λ e. if dies id o.events then none else e)
                  (find-see_units o.game_time_ms id o.units st.remembered))
          ∙ ap
              (λ t. keep t (
                if dies id o.events
                then none
                else or_else (last_shown o.game_time_ms id o.units) (find id st.remembered)))
              (fun_ext λ row. ap (λ b. not b && in_sight single d o.units row) (shown row.unit_id)),
      refl,
    )
      where
        seen_state : FeatState Real
        seen_state = record st {
          remembered = see_units o.game_time_ms o.units st.remembered;
          attacked = map_clear st.attacked;
        }

        told : FeatState Real
        told = take_events o.game_time_ms o.events seen_state

        test : BinUnit Real → Bool
        test = gone single d o.units (visible_in o.units (map_init 1024))

        events :
            (id : ℕ)
            → (find id told.remembered
                ≡ (if dies id o.events then none else find id seen_state.remembered))
              × IsUnique told.remembered
        events id =
            find-take_events o.game_time_ms id o.events seen_state
              (see_units-IsUnique o.game_time_ms o.units st.remembered u)

        or_false : (b : Bool) → (b || false) ≡ b
        or_false true = refl
        or_false false = refl

        shown : (id : ℕ) → has (visible_in o.units (map_init 1024)) id ≡ shows o.units id
        shown id =
            has-visible_in o.units (map_init 1024) id (init-IsTable 1024 (omega arith))
            ∙ ap (λ b. shows o.units id || b) (has-init 1024 id)
            ∙ or_false (shows o.units id)

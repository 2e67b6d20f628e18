-- ===== src/Masks/Tables/Listing.antt =====
-- wc3hook/masks.c: the tables that go out, as plain listings.
pub mod Parts
use wc3env.Prelude.{ℕ, ◌≡◌, ◌⊎◌, ◌↔◌, inl, inr, ap, ◌∙◌, true, some, List, map, arith, take}
use wc3env.Json.{Bytes}
use wc3env.Masks.{Reference, Doubles, Obs}
use wc3env.Masks.Own.{Own, own_init}
use wc3env.Masks.Own.Init.{IsOwn, own_init-IsOwn}
use wc3env.Masks.Own.Init.Counts.{IsStocked, own_init-IsStocked}
use wc3env.Masks.Allowed.Exact.{IsExact, CanTrain, CanResearch, CanBuild, allowed-IsExact}
use wc3env.Masks.Decide.{
  Kind, Action, max_actor, Rows, sets, train, research, build, row_of, mark_units, no_rows,
}
use wc3env.Masks.Tables.{
  Tables, no_tables, argument_bits, actions_of, parts, finish_masks, feat_masks,
}
use wc3env.Masks.Tables.Types.{all_actors, all_arguments, add_types-IsListing}
use wc3env.Masks.Tables.Listing.Parts.{
  IsMask, argument_bits-IsMask, Does, touched-mark_units, IsPossible, type_mask-IsPossible,
}

module _ (r : Reference) {Real : Type 0} (d : Doubles Real) where
  -- What the tables are made of: the argument mask of a type, the arguments that have a row, and the
  -- kinds that are possible.
  pub record ArePinned (o : Obs Real) (rows : Rows) (w : Own Real) : Type 0 where
    pub mask : (t : Action) (bits : ℕ → ℕ) → IsMask t bits (argument_bits t bits)
    pub touched :
        (kind : Kind) (j : ℕ)
        → (((parts r d o w rows).by_group kind).touched j ≡ true)
          ↔ Does r kind (row_of r w.index rows rows.count) 0 (sets r d o w).units j
    pub possible :
        (kind : Kind) → ((parts r d o w rows).mask kind ≡ true) ↔ IsPossible r w (sets r d o w) kind

  -- In the masks of any observation, the arguments that the types train, research and build allow are
  -- exactly those of what can be trained, researched and built, and such a type is allowed just when
  -- there is something, be it an argument or not. A unit can be trained if a structure makes it, it is
  -- no structure unless a hero, its requirements are had and the stock pays for it; a hero only while
  -- there are fewer than three, with what the number of heroes asks for, and if it is the first, then for
  -- its food alone. An upgrade can be researched below its last level, by the cost and the requirements
  -- of the level after the one that it has; so can a structure that another upgrades into, and what a
  -- unit builds, by their own. The stock, and the food that is free, are those of the observation; the
  -- heroes are those alive, without illusions, and those dead; an upgrade's level is the one that the
  -- observation lists last, or 0.
  pub sets-AreExact :
      (o : Obs Real)
      → (w : Own Real) × (own_init r d o ≡ some w)
        × IsOwn r d o w
        × IsStocked r d o w
        × IsExact r w (CanTrain r w) ((sets r d o w).allowed train)
        × IsExact r w (CanResearch r w) ((sets r d o w).allowed research)
        × IsExact r w (CanBuild r w) ((sets r d o w).allowed build)
  unfolding sets
  sets-AreExact o =
      let (w, i, own) = own_init-IsOwn r d o in
      let (t, s, b) = allowed-IsExact r w own.makes_table own.builds_table in
      (w, i, own, own_init-IsStocked r d o w i, t, s, b)

  parts-ArePinned : (o : Obs Real) (rows : Rows) (w : Own Real) → IsOwn r d o w → ArePinned o rows w
  unfolding parts sets
  parts-ArePinned o rows w own =
      let (t, s, b) = allowed-IsExact r w own.makes_table own.builds_table in
      record {
        mask = argument_bits-IsMask;
        touched = λ kind j. (
          λ p. elim ((marked kind j).0 p) [ inl q ↦ absurd (cc) | inr q ↦ q ],
          λ q. (marked kind j).1 (inr q),
        );
        possible = λ kind. type_mask-IsPossible r w (sets r d o w) kind t s b;
      }
    where
      marked :
          (kind : Kind) (j : ℕ)
          → ((mark_units r kind
                  (row_of r w.index rows rows.count)
                  0
                  (sets r d o w).units
                  no_rows).touched
                j
              ≡ true)
            ↔ ((no_rows.touched j ≡ true)
                ⊎ Does r kind (row_of r w.index rows rows.count) 0 (sets r d o w).units j)
      marked kind j =
          touched-mark_units r kind (row_of r w.index rows rows.count) 0 (sets r d o w).units
            no_rows j

  -- Whatever is observed, and whichever rows show it, the masks of known kinds go out: the argument
  -- masks are those of the types that are allowed, take an argument and have one other than 0 that is
  -- allowed, in the order of the types, each without argument 0; the actor masks are the first 4096 of
  -- those of the allowed types in turn, one for a type whose actor does not depend on its argument, and
  -- for any other one for each argument from 1 on, in order, that is allowed and that some unit with a
  -- row can do. Their keys are the type's number times 2828, with the argument added. A type is allowed if
  -- its kind is possible: a unit can walk for the moves, there is a structure to rally, something to
  -- cancel, gold and a unit to buy, a dead hero to revive, something that can be trained, researched or
  -- built, or some learning, casting or use of an item allowed. What is counted of the units, and the
  -- stock, are those of the observation.
  pub feat_masks-IsListing :
      (kinds : List (Bytes × ℕ)) (ts : List Action) (o : Obs Real) (rows : Rows)
      → actions_of kinds ≡ some ts
      → (w : Own Real) × (own_init r d o ≡ some w)
        × IsStocked r d o w
        × ArePinned o rows w
        × (feat_masks r d kinds o rows
            ≡ some (record {
              type_mask = map (λ (t : Action). (parts r d o w rows).mask t.kind) ts;
              tables = record {
                arguments = all_arguments (parts r d o w rows) 0 ts;
                actors = take max_actor (all_actors (parts r d o w rows) 0 ts);
              };
            }))
  unfolding feat_masks finish_masks
  feat_masks-IsListing kinds ts o rows e =
      let (w, i, own) = own_init-IsOwn r d o in
      let l = add_types-IsListing (parts r d o w rows) 0 ts no_tables (omega arith) in
      (
        w,
        i,
        own_init-IsStocked r d o w i,
        parts-ArePinned o rows w own,
        ap (λ a. finish_masks r d o rows a (own_init r d o)) e
            ∙ ap (finish_masks r d o rows (some ts)) i
            ∙ ap
                (λ (t : Tables). some (record {
                  type_mask = map (λ (t : Action). (parts r d o w rows).mask t.kind) ts;
                  tables = t;
                }))
                (λ j. record { arguments = l.0 j; actors = l.1 j }),
      )

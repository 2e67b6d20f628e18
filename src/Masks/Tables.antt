-- ===== src/Masks/Tables.antt =====
-- wc3hook/masks.c: `feat_masks` as a whole: the tables of arguments and actors that go out.
pub mod Types
pub mod Listing
use wc3env.Prelude.{
  ℕ, zero, suc, ◌+◌, ◌-◌, ◌*◌, ◌%◌, Bool, true, false, not, ◌&&◌, ◌||◌, Option, none, some, List,
  [], ◌∷◌, ◌++◌, map, if◌then◌else◌, ltb, ◌==◌, length,
}
use wc3env.Prelude.Words.{test_bit}
use wc3env.Json.{Bytes}
use wc3env.Masks.{Reference, Doubles, Obs}
use wc3env.Masks.Own.{Own, own_init}
use wc3env.Masks.Allowed.{no_bits, bit_at}
use wc3env.Masks.Decide.{
  Kind, noop, kind_of, Action, n_args, arg_bytes, max_actor, Rows, sets, type_mask, row_of, ArgRows,
  no_rows, mark_units, act_rows,
}

-- The tables that go out: argument masks by type, actor masks by their keys.
pub record Tables : Type 0 where
  pub arguments : List (ℕ × (ℕ → ℕ))
  pub actors : List (ℕ × (ℕ → ℕ))

abbrev pub no_tables : Tables
no_tables = record { arguments = []; actors = [] }

-- `any |= bits[b]` over the bytes.
pub any_byte : ℕ → (ℕ → ℕ) → Bool
any_byte zero bits = false
any_byte (suc n) bits = any_byte n bits || not (bits n == 0)

-- Index 0 off.
abbrev pub drop_zero : (ℕ → ℕ) → ℕ → ℕ
drop_zero bits i = if i == 0 then bits i % 128 else bits i

-- The argument bits of the type, if any is left.
pub argument_bits : Action → (ℕ → ℕ) → Option (ℕ → ℕ)
argument_bits t bits =
    if t.takes_argument && any_byte arg_bytes (drop_zero bits) then some (drop_zero bits) else none

-- An actor mask for each argument from `a` on that is allowed and has a row, while there is room.
pub actors_from : ℕ → (ℕ → ℕ) → ArgRows → ℕ → ℕ → List (ℕ × (ℕ → ℕ)) → List (ℕ × (ℕ → ℕ))
actors_from key bits m a zero actors = actors
actors_from key bits m a (suc left) actors =
    if ltb (length actors) max_actor
    then actors_from key bits m (suc a) left
        (if bit_at bits a && m.touched a then actors ++ (key + a, m.rows a) ∷ [] else actors)
    else actors

abbrev pub is_noop : Kind → Bool
is_noop noop = true
is_noop kind = false

abbrev pub with_bits : ℕ → Option (ℕ → ℕ) → List (ℕ × (ℕ → ℕ)) → List (ℕ × (ℕ → ℕ))
with_bits k none arguments = arguments
with_bits k (some bits) arguments = arguments ++ (k, bits) ∷ []

-- What the tables are made of: the masks of the types, the bits and the rows of each kind, and the
-- rows of its actors where these do not depend on the argument.
pub record Parts : Type 0 where
  pub mask : Kind → Bool
  pub bits : Kind → ℕ → ℕ
  pub by_group : Kind → ArgRows
  pub acting : Kind → ℕ → ℕ

module _ (p : Parts) where
  -- By whether the type has an actor, whether any argument will do, and its argument bits.
  pub put_actors : Bool → Bool → Option (ℕ → ℕ) → ℕ → Kind → List (ℕ × (ℕ → ℕ)) → List (ℕ × (ℕ → ℕ))
  put_actors false any bits k kind actors = actors
  put_actors true true bits k kind actors =
      if length actors == max_actor then actors else actors ++ (k * n_args, p.acting kind) ∷ []
  put_actors true false none k kind actors = actors
  put_actors true false (some bits) k kind actors =
      actors_from (k * n_args) bits (p.by_group kind) 1 (n_args - 1) actors

  pub add_actors : ℕ → Action → List (ℕ × (ℕ → ℕ)) → List (ℕ × (ℕ → ℕ))
  add_actors k t actors =
      put_actors t.has_actor t.any_argument (argument_bits t (p.bits t.kind)) k t.kind actors

  pub add_type : ℕ → Action → Tables → Tables
  add_type k t tables = if not (p.mask t.kind) || is_noop t.kind then tables else record {
    arguments = with_bits k (argument_bits t (p.bits t.kind)) tables.arguments;
    actors = add_actors k t tables.actors;
  }

  pub add_types : ℕ → List Action → Tables → Tables
  add_types k [] tables = tables
  add_types k (t ∷ ts) tables = add_types (suc k) ts (add_type k t tables)

-- A kind of FT_KINDS, by its name and flags.
unfoldable pub action_of : Bytes → ℕ → Option Action
action_of name flags = elim (kind_of name) [
  | none ↦ none
  | some kind ↦ some (record {
    kind = kind;
    takes_argument = test_bit flags 0;
    has_actor = test_bit flags 1;
    any_argument = test_bit flags 2;
  })
]

unfoldable pub actions_of : List (Bytes × ℕ) → Option (List Action)
actions_of [] = some []
actions_of ((name, flags) ∷ rest) = elim (action_of name flags) [
  | none ↦ none
  | some t ↦ elim (actions_of rest) [ none ↦ none | some ts ↦ some (t ∷ ts) ]
]

-- What goes out: the type mask, by type, and the tables.
pub record MasksOut : Type 0 where
  pub type_mask : List Bool
  pub tables : Tables

module _ (r : Reference) {Real : Type 0} (d : Doubles Real) where
  pub parts : Obs Real → Own Real → Rows → Parts
  parts o w rows =
      let s = sets r d o w in
      let row = row_of r w.index rows rows.count in
      record {
        mask = type_mask r w s;
        bits = λ kind. (s.allowed kind).bits;
        by_group = λ kind. mark_units r kind row 0 s.units no_rows;
        acting = λ kind. act_rows r kind row 0 s.units no_bits;
      }

  pub finish_masks : Obs Real → Rows → Option (List Action) → Option (Own Real) → Option MasksOut
  finish_masks o rows none w = none
  finish_masks o rows (some ts) none = none
  finish_masks o rows (some ts) (some w) = some (record {
    type_mask = map (λ (t : Action). (parts o w rows).mask t.kind) ts;
    tables = add_types (parts o w rows) 0 ts no_tables;
  })

  -- `none` is the abort on a name that is not of KINDS.
  pub feat_masks : List (Bytes × ℕ) → Obs Real → Rows → Option MasksOut
  feat_masks kinds o rows = finish_masks o rows (actions_of kinds) (own_init r d o)

-- ===== src/Masks/Tests.antt =====
-- wc3hook/masks.c: runs at concrete inputs. Two types: 100 is a hall that trains 200, a worker who
-- builds 100, and upgrades into 300, a keep. Argument 1 is the hall, 2 the worker, 3 the keep.
use wc3env.Prelude.{
  ℕ, zero, suc, ◌+◌, ◌-◌, ◌*◌, ◌/◌, ◌≡◌, true, false, some, List, [], ◌∷◌, map, refl, take, ltb,
  ◌==◌, if◌then◌else◌, leb,
}
use wc3env.Prelude.Int.{pos}
use wc3env.Json.{Bytes, codes}
use wc3env.Masks.{Reference, FtList, FtUnit, Doubles, BinUnit, Obs}
use wc3env.Masks.Own.{Own, own_init}
use wc3env.Masks.Own.Init.{IsOwn, own_init-IsOwn}
use wc3env.Masks.Own.Init.Counts.{IsStocked}
use wc3env.Masks.Allowed.Exact.{IsExact, CanTrain, CanResearch, CanBuild}
use wc3env.Masks.Decide.{Action, Rows, sets, max_actor, noop, move, train, research, build, kind_of}
use wc3env.Masks.Tables.{parts, action_of, actions_of, feat_masks}
use wc3env.Masks.Tables.Types.{all_arguments, all_actors}
use wc3env.Masks.Tables.Listing.{ArePinned, feat_masks-IsListing, sets-AreExact}

abbrev no_list : FtList
no_list = record { offset = 0; count = 0 }

abbrev unit_type : ℕ → ℕ → FtUnit
unit_type id flags = record {
  id = id;
  flags = flags;
  gold = pos 50;
  lumber = pos 0;
  food = pos 1;
  requires = no_list;
  groups = 0;
  groups_n = 0;
  trains = no_list;
  researches = no_list;
  upgrades_to = no_list;
  builds = no_list;
  hero_abilities = no_list;
}

abbrev unit_table : ℕ → FtUnit
unit_table zero = record (unit_type 100 1) {
  trains = record { offset = 0; count = 1 };
  upgrades_to = record { offset = 2; count = 1 };
}
unit_table (suc zero) = record (unit_type 200 8) { builds = record { offset = 1; count = 1 } }
unit_table (suc (suc n)) = unit_type 300 1

abbrev reference : Reference
reference = record {
  pool = λ i. if i == 0 then 200 else if i == 1 then 100 else 300;
  group = λ i. no_list;
  unit = unit_table;
  units_n = 3;
  upgrade_level = λ i. record { gold = pos 0; lumber = pos 0; requires = no_list };
  upgrade = λ i. record { id = 0; levels = 0; levels_n = 0 };
  upgrades_n = 0;
  ability_level = λ i. record { level = 0; orders = 0; orders_n = 0 };
  order = λ i. record { order = 0; cast = false };
  ability = λ i. record {
    id = 0;
    max_level = 0;
    required_level = 0;
    level_skip = 0;
    levels = 0;
    levels_n = 0;
  };
  abilities_n = 0;
  type_orders = λ i. record { id = 0; orders = no_list };
  type_orders_n = 0;
  unknown_orders = [];
  argument = λ i. ((i + 1) * 100, i + 1);
  arguments_n = 3;
}

-- Whole numbers in place of doubles.
abbrev whole : Doubles ℕ
whole = record {
  of_int = λ n. n;
  tenth = 0;
  nine_tenths = 1;
  minus = λ a b. a - b;
  over = λ a b. a / b;
  above = λ a b. ltb b a;
  at_least = λ a b. leb b a;
}

abbrev a_unit : ℕ → ℕ → ℕ → BinUnit ℕ
a_unit id type flags = record {
  unit_id = id;
  type_id = type;
  flags = flags;
  level = 1;
  state = 0;
  hp = 100;
  max_hp = 100;
  mana = 0;
}

abbrev observed : Obs ℕ
observed = record {
  h = record { gold = pos 500; lumber = pos 0; food_used = 5; food_cap = 10 };
  units = a_unit 7 100 3 ∷ a_unit 8 200 1 ∷ a_unit 9 300 2 ∷ [];
  queue = 0;
  inventory = [];
  heroes = [];
  abilities = [];
  research = [];
}

abbrev shown : Rows
shown = record { count = 2; owner = λ i. 1; unit_id = λ i. i + 7 }

abbrev some_kinds : List (Bytes × ℕ)
some_kinds = (codes "noop", 0) ∷ (codes "move", 6) ∷ (codes "train", 1) ∷ (codes "build", 3) ∷ []

abbrev some_actions : List Action
some_actions =
    record { kind = noop; takes_argument = false; has_actor = false; any_argument = false }
    ∷ record { kind = move; takes_argument = false; has_actor = true; any_argument = true }
    ∷ record { kind = train; takes_argument = true; has_actor = false; any_argument = false }
    ∷ record { kind = build; takes_argument = true; has_actor = true; any_argument = false }
    ∷ []

some_kinds-known : actions_of some_kinds ≡ some some_actions
unfolding actions_of action_of kind_of
some_kinds-known = refl

own_init-IsOwn_example :
    (w : Own ℕ) × (own_init reference whole observed ≡ some w) × IsOwn reference whole observed w
own_init-IsOwn_example = own_init-IsOwn reference whole observed

sets-AreExact_example :
    (w : Own ℕ) × (own_init reference whole observed ≡ some w)
    × IsOwn reference whole observed w
    × IsStocked reference whole observed w
    × IsExact reference w (CanTrain reference w) ((sets reference whole observed w).allowed train)
    × IsExact reference w
        (CanResearch reference w)
        ((sets reference whole observed w).allowed research)
    × IsExact reference w (CanBuild reference w) ((sets reference whole observed w).allowed build)
sets-AreExact_example = sets-AreExact reference whole observed

feat_masks-IsListing_example :
    (w : Own ℕ) × (own_init reference whole observed ≡ some w)
    × IsStocked reference whole observed w
    × ArePinned reference whole observed shown w
    × (feat_masks reference whole some_kinds observed shown
        ≡ some (record {
          type_mask =
              map
                (λ (t : Action). (parts reference whole observed w shown).mask t.kind)
                some_actions;
          tables = record {
            arguments = all_arguments (parts reference whole observed w shown) 0 some_actions;
            actors =
                take max_actor (all_actors (parts reference whole observed w shown) 0 some_actions);
          };
        }))
feat_masks-IsListing_example =
    feat_masks-IsListing reference whole some_kinds some_actions observed shown some_kinds-known

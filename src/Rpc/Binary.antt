-- ===== src/Rpc/Binary.antt =====
-- wc3hook/rpc.c: binary observations in the shared mapping. The writers of observations and features are
-- parameters, which see how many bytes of the mapping are left.
pub mod Layout
pub mod Players
use wc3env.Prelude.{
  ℕ, zero, suc, ◌+◌, ◌-◌, ◌*◌, ◌/◌, ◌≤◌, ◌≡◌, Bool, true, false, Option, none, some, List, [], ◌∷◌,
  ◌++◌, ◌&&◌, ◌||◌, not, ◌==◌, if◌then◌else◌, ltb, leb, length,
}
use wc3env.Json.{codes}
use wc3env.Rpc.{Yyjson, get, given, is_list, items, int, slot_of}

abbrev pub map_bytes : ℕ
map_bytes = 16777216

-- `obs_write`: the size of a player's observation with this sequence number, 0 where it does not fit.
-- `features`: whether the player's features are on; `feat_step`: whether the observation of this offset
-- and size cannot be read; `feat_write`: the size of the features, 0 where they do not fit.
pub record Writers : Type 0 where
  pub obs_write : ℕ → ℕ → ℕ → ℕ
  pub features : ℕ → Bool
  pub feat_step : ℕ → ℕ → ℕ → Bool → Bool
  pub feat_write : ℕ → ℕ → ℕ

-- What both writers promise: no more than there is room for.
pub record IsBounded (o : Writers) : Type 0 where
  pub obs_fits : (room player seq : ℕ) → o.obs_write room player seq ≤ room
  pub feat_fits : (room player : ℕ) → o.feat_write room player ≤ room

-- A player's entry of `BinaryJob`.
pub record Entry : Type 0 where
  pub player : ℕ
  pub offset : ℕ
  pub size : ℕ
  pub features_offset : ℕ
  pub features_size : ℕ

abbrev pub entry_at : ℕ → ℕ → ℕ → Entry
entry_at p at size = record {
  player = p;
  offset = at;
  size = size;
  features_offset = 0;
  features_size = 0;
}

-- `g_obs_seq` and `g_feat_has_last`.
pub record Seen : Type 0 where
  pub obs_seq : ℕ → ℕ
  pub has_last : ℕ → Bool

pub update {ℓ} : {A : Type ℓ} → (ℕ → A) → ℕ → A → ℕ → A
update f i a j = if i == j then a else f j

abbrev pub round_up : ℕ → ℕ
round_up size = (size + 7) / 8 * 8

-- What a job has written, what it leaves, and whether all of it is there.
pub record Written : Type 0 where
  pub entries : List Entry
  pub seen : Seen
  pub complete : Bool

-- One player's observation and features at `at`: the entry, what comes after, whether all is written.
pub record Part : Type 0 where
  pub entry : Entry
  pub after : ℕ
  pub left : Seen
  pub good : Bool

abbrev pub part : Entry → ℕ → Seen → Bool → Part
part e at s g = record { entry = e; after = at; left = s; good = g }

module _ (o : Writers) where
  -- The features after an observation.
  pub write_features : ℕ → ℕ → ℕ → ℕ → Seen → Part
  write_features p at size after s =
      let plain = entry_at p at size in
      let told = record s { has_last = update s.has_last p false } in
      let fsize = o.feat_write (map_bytes - after) p in
      if o.feat_step p at size (s.has_last p)
      then part plain after s false
      else if fsize == 0
      then part plain after told false
      else part (record plain { features_offset = after; features_size = fsize })
          (after + round_up fsize) told true

  pub write_player : ℕ → ℕ → Seen → Part
  write_player p at s =
      let size = o.obs_write (map_bytes - at) p (s.obs_seq p) in
      let counted = record s { obs_seq = update s.obs_seq p (s.obs_seq p + 1) } in
      let plain = entry_at p at size in
      let with_features = write_features p at size (at + round_up size) counted in
      if size == 0
      then part (entry_at p 0 0) at counted false
      else if o.features p
      then with_features
      else part plain (at + round_up size) counted true

  -- The players of a job in turn, from `at` on, up to the first that is not written in full.
  pub write_players : ℕ → List ℕ → Seen → Written
  write_players at [] s = record { entries = []; seen = s; complete = true }
  write_players at (p ∷ ps) s =
      let one = write_player p at s in
      let rest = write_players one.after ps one.left in
      if one.good
      then record rest { entries = one.entry ∷ rest.entries }
      else record { entries = one.entry ∷ []; seen = one.left; complete = false }

  pub binary_job : List ℕ → Seen → Written
  binary_job players s = write_players 0 players s

-- The players of a job: each at most once, and the mapping is there if there are any.
abbrev pub has : List ℕ → ℕ → Bool
has [] p = false
has (q ∷ qs) p = q == p || has qs p

pub data Chosen : Type 0 where
  players : List ℕ → Chosen
  twice : Chosen
  no_mapping : Chosen
  no_slots : Chosen

pub add_players : Bool → List ℕ → List ℕ → Chosen
add_players mapped chosen [] =
    if not (length chosen == 0) && not mapped then no_mapping else players chosen
add_players mapped chosen (p ∷ ps) =
    let rest = add_players mapped (chosen ++ (p ∷ [])) ps in if has chosen p then twice else rest

-- `mapped`: whether the mapping can be made.
pub binary_players : Bool → List ℕ → Chosen
binary_players mapped ps = add_players mapped [] ps

module _ {Val Num : Type 0} (y : Yyjson Val Num) where
  abbrev pub and_slot : Option ℕ → Option (List ℕ) → Option (List ℕ)
  and_slot none ps = none
  and_slot (some p) none = none
  and_slot (some p) (some ps) = some (p ∷ ps)

  pub slots : List Val → Option (List ℕ)
  slots [] = some []
  slots (v ∷ vs) = and_slot (slot_of (int y (some v))) (slots vs)

  pub binary_list : Bool → Option Val → Chosen
  binary_list mapped list =
      let chosen = elim (slots (items y list)) as (λ o. Chosen) [
        | none ↦ no_slots
        | some ps ↦ binary_players mapped ps
      ] in
      if given y list && (not (is_list y list) || ltb 16 (length (items y list)))
      then no_slots
      else chosen

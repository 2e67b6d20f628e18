-- ===== src/Events/Records.antt =====
-- wc3hook/events.c: an event as the record that one player is given, and the table by which the record
-- is written as JSON.
use wc3env.Prelude.{
  ℕ, suc, ◌≡◌, ◌≢◌, ◌⊎◌, refl, inl, inr, Bool, true, false, ◌||◌, Option, none, some, List, [], ◌∷◌,
  arith, if◌then◌else◌, ◌==◌, Option-cases,
}
use wc3env.Events.{Event}

pub record BinEvent : Type 0 where
  pub kind : ℕ
  pub unit_id : ℕ
  pub other_id : ℕ
  pub type_id : ℕ
  pub value : Option ℕ

abbrev pub one_of : ℕ → List ℕ → Bool
one_of n [] = false
one_of n (m ∷ ms) = n == m || one_of n ms

-- The second unit, its type, the item and its type, as `p` may see them.
other_of : Event → ℕ → ℕ
other_of e p = if e.other_seen p then e.other_id else 0

other_type_of : Event → ℕ → ℕ
other_type_of e p = if other_of e p == 0 then 0 else e.other_type

item_of : Event → ℕ → ℕ
item_of e p = if e.item_seen p then e.item_id else 0

item_type_of : Event → ℕ → ℕ
item_type_of e p = if e.item_seen p then e.item_type else 0

-- The `switch` on the kind. A value of `none` is the owner -1.
record_of :
    (id unit_id : ℕ)
    → Option ℕ
    → (type argument other other_type item item_type : ℕ) → Option BinEvent
record_of id unit_id owner type argument other other_type item item_type =
    let r : ℕ → ℕ → ℕ → Option ℕ → Option BinEvent =
      λ u o t v. some (record { kind = id; unit_id = u; other_id = o; type_id = t; value = v }) in
    if id == 20
    then r unit_id 0 type owner
    else if one_of id (26 ∷ 27 ∷ 28 ∷ 29 ∷ 30 ∷ 31 ∷ [])
    then r unit_id 0 type (some 0)
    else if one_of id (32 ∷ 33 ∷ 35 ∷ 36 ∷ 37 ∷ 42 ∷ 277 ∷ [])
    then r unit_id 0 argument (some 0)
    else if id == 34
    then r unit_id other other_type (some 0)
    else if id == 41
    then r unit_id 0 0 (some argument)
    else if id == 47
    then r other unit_id type (some 0)
    else if id == 49
    then r unit_id item item_type (some 0)
    else if id == 50
    then r unit_id 0 item_type (some 0)
    else if id == 18
    then r unit_id other 0 (some 0)
    else if id == 52
    then r unit_id other 0 (some argument)
    else if id == 272
    then r unit_id other argument (some 0)
    else if id == 274
    then r unit_id other item_type (some 0)
    else none

pub event_record : Event → ℕ → Option BinEvent
event_record e p =
    record_of e.id e.unit_id e.owner e.type e.argument (other_of e p) (other_type_of e p)
      (item_of e p) (item_type_of e p)

-- The ids of `KINDS`, in its order.
abbrev pub kinds : List ℕ
kinds =
    18 ∷ 20 ∷ 26 ∷ 27 ∷ 28 ∷ 29 ∷ 30 ∷ 31 ∷ 32 ∷ 33 ∷ 34 ∷ 35 ∷ 36 ∷ 37 ∷ 41 ∷ 42 ∷ 47 ∷ 49 ∷ 50
    ∷ 52 ∷ 272 ∷ 274 ∷ 277 ∷ []

-- `while (KINDS[k].id != e->kind) k++`: `none` is a read past the table.
pub kind_index : List ℕ → ℕ → Option ℕ
kind_index [] kind = none
kind_index (id ∷ ids) kind =
    if id == kind
    then some 0
    else elim (kind_index ids kind) [ none ↦ none | some k ↦ some (suc k) ]

-- Two events that differ at most in what `p` does not see of the second unit and of the item.
pub record IsAlike (p : ℕ) (d e : Event) : Type 0 where
  pub id : d.id ≡ e.id
  pub owner : d.owner ≡ e.owner
  pub unit_id : d.unit_id ≡ e.unit_id
  pub type : d.type ≡ e.type
  pub argument : d.argument ≡ e.argument
  pub other_seen : d.other_seen p ≡ e.other_seen p
  pub item_seen : d.item_seen p ≡ e.item_seen p
  pub other : (e.other_seen p ≡ false) ⊎ ((d.other_id ≡ e.other_id) × (d.other_type ≡ e.other_type))
  pub item : (e.item_seen p ≡ false) ⊎ ((d.item_id ≡ e.item_id) × (d.item_type ≡ e.item_type))

module _ (p : ℕ) (d e : Event) (h : IsAlike p d e) where
  other_lem : other_of d p ≡ other_of e p
  unfolding other_of
  other_lem = ground (arith, h.other_seen, h.other)

  other_type_lem : other_type_of d p ≡ other_type_of e p
  unfolding other_type_of other_of
  other_type_lem = ground (arith, h.other_seen, h.other)

  item_lem : item_of d p ≡ item_of e p
  unfolding item_of
  item_lem = ground (arith, h.item_seen, h.item)

  item_type_lem : item_type_of d p ≡ item_type_of e p
  unfolding item_type_of
  item_type_lem = ground (arith, h.item_seen, h.item)

-- What a player is told of an event does not depend on a second unit or an item that it does not see.
pub event_record-hidden :
    (p : ℕ) (d e : Event) → IsAlike p d e → event_record d p ≡ event_record e p
unfolding event_record
event_record-hidden p d e h =
    simp
      (
        h.id,
        h.owner,
        h.unit_id,
        h.type,
        h.argument,
        other_lem p d e h,
        other_type_lem p d e h,
        item_lem p d e h,
        item_type_lem p d e h,
      )
      refl

record_of-one_of :
    (id unit_id : ℕ) (owner : Option ℕ) (type argument other other_type item item_type : ℕ)
    (r : BinEvent)
    → record_of id unit_id owner type argument other other_type item item_type ≡ some r
    → (r.kind ≡ id) × (one_of id kinds ≡ true)
unfolding record_of
record_of-one_of id unit_id owner type argument other other_type item item_type r h = ground arith

kind_index-found : (ids : List ℕ) (id : ℕ) → one_of id ids ≡ true → kind_index ids id ≢ none
unfolding kind_index
kind_index-found [] id h = cc
kind_index-found (k ∷ ks) id h = ground (arith, kind_index-found ks id)

-- The search of the table that writes a record's JSON stays within the table, for every record that
-- is given out.
pub event_record-kind_index :
    (p : ℕ) (e : Event)
    → (event_record e p ≡ none)
      ⊎ ((r : BinEvent) × (event_record e p ≡ some r)
          × (r.kind ≡ e.id)
          × (kind_index kinds r.kind ≢ none))
unfolding event_record
event_record-kind_index p e = elim (Option-cases (event_record e p)) [
  | inl h ↦ inl h
  | inr (r, h) ↦
      let f = record_of-one_of _ _ _ _ _ _ _ _ _ r h in
      inr (r, h, f.0, rw f.0 (kind_index-found kinds e.id f.1))
]

record_of-given :
    (id unit_id : ℕ) (owner : Option ℕ) (type argument other other_type item item_type : ℕ)
    → one_of id kinds ≡ true
    → record_of id unit_id owner type argument other other_type item item_type ≢ none
unfolding record_of
record_of-given id unit_id owner type argument other other_type item item_type h = ground arith

pub event_record-given : (e : Event) (p : ℕ) → one_of e.id kinds ≡ true → event_record e p ≢ none
unfolding event_record
event_record-given e p h = record_of-given e.id _ _ _ _ _ _ _ _ h

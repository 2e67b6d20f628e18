-- ===== src/Act/Encode.antt =====
-- wc3hook/act.c: the W3G records of orders.
use wc3env.Prelude.{
  ℕ, ◌+◌, ◌/◌, ◌%◌, ◌≤◌, Option, none, some, List, [], ◌∷◌, ◌++◌, if◌then◌else◌, ◌==◌, length, All,
  arith, replicate,
}
use wc3env.Act.{Bytes}

-- What records take of an object: its two object ids and its type.
pub record Object : Type 0 where
  pub id_a : ℕ
  pub id_b : ℕ
  pub type_id : ℕ

abbrev pub put_u16 : ℕ → Bytes
put_u16 v = v % 256 ∷ v / 256 % 256 ∷ []

abbrev pub put_u32 : ℕ → Bytes
put_u32 v = v % 256 ∷ v / 256 % 256 ∷ v / 65536 % 256 ∷ v / 16777216 % 256 ∷ []

abbrev pub put_pair : Object → Bytes
put_pair o = put_u32 o.id_a ++ put_u32 o.id_b

abbrev pub put_none : Bytes
put_none = replicate 8 0xff

abbrev pub put_target : Option Object → Bytes
put_target none = put_none
put_target (some o) = put_pair o

abbrev pub put_pairs : List Object → Bytes
put_pairs [] = []
put_pairs (o ∷ os) = put_pair o ++ put_pairs os

abbrev pub o_move : ℕ
o_move = 851986

abbrev pub o_stop : ℕ
o_stop = 851972

abbrev pub o_attack : ℕ
o_attack = 851983

abbrev pub o_smart : ℕ
o_smart = 851971

abbrev pub o_harvest : ℕ
o_harvest = 851970

abbrev pub o_use_slot0 : ℕ
o_use_slot0 = 852008

abbrev pub o_revive : ℕ
o_revive = 852039

abbrev pub o_drop_item : ℕ
o_drop_item = 852001

pub rec_select : List Object → ℕ → Bytes
rec_select units mode = 0x16 ∷ mode ∷ put_u16 (length units) ++ put_pairs units

pub rec_subgroup : Object → List Bytes
rec_subgroup u = (0x1a ∷ []) ∷ (0x19 ∷ put_u32 u.type_id ++ put_pair u) ∷ []

-- The records of a selection, after the object ids that were selected before (0 if none), and the ids
-- selected now.
pub select_unit : Object → ℕ × ℕ → List Bytes × (ℕ × ℕ)
select_unit u previous =
    let deselect =
      if previous.0 == 0
      then []
      else (0x16 ∷ 2 ∷ 1 ∷ 0 ∷ put_u32 previous.0 ++ put_u32 previous.1) ∷ [] in
    (deselect ++ rec_select (u ∷ []) 1 ∷ rec_subgroup u, (u.id_a, u.id_b))

-- `flags` of an order: Shift is 1.
pub rec_order : ℕ → ℕ → Bytes
rec_order flags order = 0x10 ∷ put_u16 flags ++ put_u32 order ++ put_none

pub rec_point : ℕ → ℕ → ℕ → ℕ → Option Object → Bytes
rec_point flags order x y target =
    0x12 ∷ put_u16 flags ++ put_u32 order ++ put_none ++ put_u32 x ++ put_u32 y ++ put_target target

-- `0x60 | flags` and `0x44 | flags`, for a flag of 0 or 1.
pub rec_use_item_at : ℕ → Object → ℕ → ℕ → ℕ → Option Object → Bytes
rec_use_item_at slot item flags x y target =
    0x12 ∷ put_u16 (0x60 + flags)
    ++ put_u32 (o_use_slot0 + slot)
    ++ put_pair item
    ++ put_u32 x
    ++ put_u32 y
    ++ put_target target

pub rec_use_item : ℕ → Object → ℕ → Bytes
rec_use_item slot item flags =
    0x10 ∷ put_u16 (0x60 + flags) ++ put_u32 (o_use_slot0 + slot) ++ put_pair item

pub rec_drop_item : Object → ℕ → ℕ → ℕ → Option Object → Bytes
rec_drop_item item flags x y target =
    0x13 ∷ put_u16 (0x44 + flags)
    ++ put_u32 o_drop_item
    ++ put_none
    ++ put_u32 x
    ++ put_u32 y
    ++ put_target target
    ++ put_pair item

-- Records that a place of the queue can hold.
abbrev pub Fit : List Bytes → Type 0
Fit = All (λ b. length b ≤ 48)

pub select_unit-Fit :
    (u : Object) (previous : ℕ × ℕ)
    → Fit (select_unit u previous).0 × (length (select_unit u previous).0 ≤ 4)
unfolding select_unit rec_select rec_subgroup
select_unit-Fit u previous = ground arith

pub rec_order_fits : (flags order : ℕ) → length (rec_order flags order) ≤ 48
unfolding rec_order
rec_order_fits flags order = ground arith

pub rec_point_fits :
    (flags order x y : ℕ) (target : Option Object) → length (rec_point flags order x y target) ≤ 48
unfolding rec_point
rec_point_fits flags order x y none = ground arith
rec_point_fits flags order x y (some t) = ground arith

pub rec_use_item_at_fits :
    (slot : ℕ) (item : Object) (flags x y : ℕ) (target : Option Object)
    → length (rec_use_item_at slot item flags x y target) ≤ 48
unfolding rec_use_item_at
rec_use_item_at_fits slot item flags x y none = ground arith
rec_use_item_at_fits slot item flags x y (some t) = ground arith

pub rec_use_item_fits :
    (slot : ℕ) (item : Object) (flags : ℕ) → length (rec_use_item slot item flags) ≤ 48
unfolding rec_use_item
rec_use_item_fits slot item flags = ground arith

pub rec_drop_item_fits :
    (item : Object) (flags x y : ℕ) (target : Option Object)
    → length (rec_drop_item item flags x y target) ≤ 48
unfolding rec_drop_item
rec_drop_item_fits item flags x y none = ground arith
rec_drop_item_fits item flags x y (some t) = ground arith

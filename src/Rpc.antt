-- ===== src/Rpc.antt =====
-- wc3hook/rpc.c: the requests. What yyjson reads out of a request is a parameter: `Val` are its values
-- and `Num` the doubles.
pub mod Parse
pub mod Binary
pub mod Base64
pub mod Server
pub mod Replies
pub mod Create
pub mod Steps
pub mod Play
pub mod Handle
pub mod Served
pub mod Tests
use wc3env.Prelude.{
  ℕ, Bool, true, false, Option, none, some, List, [], ◌∷◌, ◌&&◌, ◌||◌, not, ◌==◌, if◌then◌else◌,
  ltb, ◌-◌,
}
use wc3env.Prelude.Int.{ℤ, pos, negsuc}
use wc3env.Json.{Bytes, codes, jr_is_int, jr_str}

pub record Yyjson (Val Num : Type 0) : Type 0 where
  pub is_obj : Val → Bool
  pub is_arr : Val → Bool
  pub is_bool : Val → Bool
  pub get_bool : Val → Bool
  pub get_sint : Val → Option ℤ
  pub get_uint : Val → Option ℕ
  pub get_num : Val → Option Num
  pub get_str : Val → Option Bytes
  -- The value of a key of an object; the elements of an array; the members of an object.
  pub obj_get : Val → Bytes → Option Val
  pub elements : Val → List Val
  pub members : Val → List (Bytes × Val)

pub same_text : Bytes → Bytes → Bool
same_text [] [] = true
same_text [] (d ∷ t) = false
same_text (c ∷ s) [] = false
same_text (c ∷ s) (d ∷ t) = c == d && same_text s t

-- The argument `player`: a slot.
unfoldable pub slot_of : Option ℤ → Option ℕ
slot_of none = none
slot_of (some (pos n)) = if ltb n 16 then some n else none
slot_of (some (negsuc n)) = none

-- The accessors take NULL for a value, and so do those of json.h.
module _ {Val Num : Type 0} (y : Yyjson Val Num) where
  pub get : Option Val → Bytes → Option Val
  get none key = none
  get (some v) key = y.obj_get v key

  pub given : Option Val → Bool
  given none = false
  given (some v) = true

  pub is_object : Option Val → Bool
  is_object none = false
  is_object (some v) = y.is_obj v

  pub is_list : Option Val → Bool
  is_list none = false
  is_list (some v) = y.is_arr v

  pub items : Option Val → List Val
  items none = []
  items (some v) = y.elements v

  pub int : Option Val → Option ℤ
  int none = none
  int (some v) = jr_is_int (y.get_sint v) (y.get_uint v)

  pub num : Option Val → Option Num
  num none = none
  num (some v) = y.get_num v

  pub str : Option Val → ℕ → Option Bytes
  str none cap = none
  str (some v) cap = jr_str (y.get_str v) cap

  -- A slot, which is 0 where it may be left out.
  unfoldable pub player_param : Option Val → Bool → Option ℕ
  player_param params required =
      let p = get params (codes "player") in
      if given p then slot_of (int p) else if required then none else some 0

-- `%lld`, and the text of an option that is not given.
abbrev pub or_empty : Option Bytes → Bytes
or_empty none = []
or_empty (some s) = s

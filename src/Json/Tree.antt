-- ===== src/Json/Tree.antt =====
-- wc3hook/json.h: the calls that write a whole value, and the text of the value.
use wc3env.Prelude.{
  ℕ, ◌+◌, ◌*◌, ◌^◌, ◌≤◌, ◌<◌, ◌≡◌, refl, sym, subst, Bool, true, false, [], ◌∷◌, ◌++◌,
  if◌then◌else◌, length, arith, length-append,
}
use wc3env.Prelude.Int.{ℤ}
use mathlib.Core.List.{append-nil, append_assoc}
use wc3env.Json.{
  Bytes, codes, Writer, Outcome, done, ◌>>=◌, jw_key, jw_int, jw_bool, jw_null, jw_string, jw_open,
  jw_close, decimal,
}
use wc3env.Json.Grow.{IsWriter, Writes, writes}
use wc3env.Json.Write.{sep, quoted, length-quoted}
use wc3env.Json.Puts.{
  Puts, Puts-Writes, puts, Puts-then, length-sep, jw_key-Puts, jw_int-Puts, jw_bool-Puts,
  jw_null-Puts, jw_string-Puts, jw_open-Puts, jw_close-Puts,
}

mutual
  pub data Value : Type 0 where
    null : Value
    bool : Bool → Value
    int : ℤ → Value
    string : Bytes → Value
    array : Values → Value
    object : Fields → Value

  pub data Values : Type 0 where
    no_values : Values
    value : Value → Values → Values

  pub data Fields : Type 0 where
    no_fields : Fields
    field : Bytes → Value → Fields → Fields

-- The text of a value; `comma`: one is due before what comes next.
unfoldable mutual
  pub print : Value → Bytes
  print null = codes "null"
  print (bool b) = if b then codes "true" else codes "false"
  print (int v) = decimal v
  print (string s) = quoted s
  print (array vs) = b'[' ∷ print_values false vs ++ (b']' ∷ [])
  print (object fs) = b'{' ∷ print_fields false fs ++ (b'}' ∷ [])

  pub print_values : Bool → Values → Bytes
  print_values comma no_values = []
  print_values comma (value v vs) = sep comma ++ print v ++ print_values true vs

  pub print_fields : Bool → Fields → Bytes
  print_fields comma no_fields = []
  print_fields comma (field k v fs) =
      sep comma ++ quoted k ++ codes ":" ++ print v ++ print_fields true fs

-- The calls that a handler makes for a value, in their order.
module _ (granted : ℕ → Bool) where
  unfoldable mutual
    pub write : Value → Writer → Outcome
    write null w = jw_null granted w
    write (bool b) w = jw_bool granted b w
    write (int v) w = jw_int granted v w
    write (string s) w = jw_string granted s w
    write (array vs) w = jw_open granted b'[' w >>= write_values vs >>= jw_close granted b']'
    write (object fs) w = jw_open granted b'{' w >>= write_fields fs >>= jw_close granted b'}'

    pub write_values : Values → Writer → Outcome
    write_values no_values w = done w
    write_values (value v vs) w = write v w >>= write_values vs

    pub write_fields : Fields → Writer → Outcome
    write_fields no_fields w = done w
    write_fields (field k v fs) w = jw_key granted k w >>= write v >>= write_fields fs

-- Room that is enough for a value: the writer sets six bytes aside for each of a string.
unfoldable mutual
  pub room : Value → ℕ
  room null = 5
  room (bool b) = 6
  room (int v) = length (decimal v) + 1
  room (string s) = 6 * length s + 3
  room (array vs) = room_values vs + 3
  room (object fs) = room_fields fs + 3

  pub room_values : Values → ℕ
  room_values no_values = 0
  room_values (value v vs) = room v + room_values vs

  pub room_fields : Fields → ℕ
  room_fields no_fields = 0
  room_fields (field k v fs) = 6 * length k + 4 + room v + room_fields fs

abbrev after : Bool → Values → Bool
after comma no_values = comma
after comma (value v vs) = after true vs

abbrev after_fields : Bool → Fields → Bool
after_fields comma no_fields = comma
after_fields comma (field k v fs) = after_fields true fs

abbrev pub Short : Value → Type 0
Short v = length (print v) + 1 ≤ room v

abbrev ShortValues : Values → Type 0
ShortValues vs = (c : Bool) → length (print_values c vs) ≤ room_values vs

abbrev ShortFields : Fields → Type 0
ShortFields fs = (c : Bool) → length (print_fields c fs) ≤ room_fields fs

pub print-Short : (v : Value) → Short v
unfolding print room
print-Short v = elim v as Short ShortValues ShortFields [
  | null ↦ omega arith
  | bool true ↦ omega arith
  | bool false ↦ omega arith
  | int v ↦ omega arith
  | string s ↦ omega (arith, length-quoted s)
  | array (vs → ih) ↦ rw length-append (omega (arith, ih false))
  | object (fs → ih) ↦ rw length-append (omega (arith, ih false))
  | no_values ↦ λ c. omega arith
  | value (v → iv) (vs → ih) ↦
      λ c. rw (length-append, length-append) (omega (arith, iv, ih true, length-sep c))
  | no_fields ↦ λ c. omega arith
  | field k (v → iv) (fs → ih) ↦ λ c.
      rw (length-append, length-append, length-append, length-append)
        (omega (arith, iv, ih true, length-sep c, length-quoted k))
]

module _ (granted : ℕ → Bool) where
  abbrev pub Written : Value → Type 0
  Written v = (c : Bool) → Puts granted (sep c ++ print v) c true (room v) (write granted v)

  abbrev WrittenValues : Values → Type 0
  WrittenValues vs =
      (c : Bool)
      → Puts granted (print_values c vs) c (after c vs) (room_values vs) (write_values granted vs)

  abbrev WrittenFields : Fields → Type 0
  WrittenFields fs =
      (c : Bool)
      → Puts granted (print_fields c fs) c (after_fields c fs) (room_fields fs)
          (write_fields granted fs)

  nothing : (c : Bool) → Puts granted [] c c 0 (λ w. done w)
  nothing c = puts λ w ec i h. writes w (sym (append-nil w.text)) ec i

  in_brackets :
      {t : Bytes} {c' : Bool} {n : ℕ} {f : Writer → Outcome} (b e : ℕ) (c : Bool)
      → Puts granted t false c' n f
      → length t ≤ n
      → Puts granted
          (sep c ++ (b ∷ t ++ (e ∷ [])))
          c
          true
          (n + 3)
          (λ w. jw_open granted b w >>= f >>= jw_close granted e)
  in_brackets {t} {c'} {n} {f} b e c p h =
      subst
        (λ s. Puts granted s c true (n + 3) (λ w. jw_open granted b w >>= f >>= jw_close granted e))
        joined
        (Puts-then {m = n + 3}
          (Puts-then {m = n + 3} (jw_open-Puts granted b c) p (omega arith)
            (rw length-append (omega (arith, length-sep c))))
          (jw_close-Puts granted e c') (omega arith)
          (rw (length-append, length-append) (omega (arith, length-sep c))))
    where
      joined : sep c ++ (b ∷ []) ++ t ++ (e ∷ []) ≡ sep c ++ (b ∷ t ++ (e ∷ []))
      joined = simp append_assoc

  pub write-Puts : (v : Value) → Written v
  unfolding print room write
  write-Puts v = elim v as Written WrittenValues WrittenFields [
    | null ↦ λ c. jw_null-Puts granted c
    | bool b ↦ λ c. jw_bool-Puts granted b c
    | int v ↦ λ c. jw_int-Puts granted v c
    | string s ↦ λ c. jw_string-Puts granted s c
    | array (vs → ih) ↦ λ c.
        in_brackets b'[' b']' c (ih false)
          (omega (arith, rw length-append at (print-Short (array vs))))
    | object (fs → ih) ↦ λ c.
        in_brackets b'{' b'}' c (ih false)
          (omega (arith, rw length-append at (print-Short (object fs))))
    | no_values ↦ λ c. nothing c
    | value (v → iv) (vs → ih) ↦ λ c.
        Puts-then (iv c) (ih true) (omega arith)
          (rw length-append (omega (arith, length-sep c, print-Short v)))
    | no_fields ↦ λ c. nothing c
    | field k (v → iv) (fs → ih) ↦ λ c.
        Puts-then
          (Puts-then {m = 6 * length k + 4 + room v} (jw_key-Puts granted k c) (iv false)
            (omega arith)
            (rw (length-append, length-append) (omega (arith, length-sep c, length-quoted k))))
          (ih true) (omega arith)
          (rw (length-append, length-append, length-append)
            (omega (arith, length-sep c, length-quoted k, print-Short v)))
  ]

  -- A writer that is as it should be, told to write a value of any depth, puts the comma that is due and
  -- the value's text at the end of its own; the next value will have a comma. It stays as it should be:
  -- no write goes past the memory, whatever the sizes of the strings, and the doubling of the memory
  -- ends. It stops only where memory is refused. The text and the room for the value stay below 2 ^ 31.
  pub write-print :
      (v : Value) (w : Writer)
      → IsWriter w
      → length w.text + room v < 2 ^ 31
      → Writes granted (w.text ++ sep w.comma ++ print v) true (write granted v w)
  write-print v w i h =
      rw (append_assoc w.text (sep w.comma) (print v))
        (Puts-Writes (write-Puts v w.comma) w refl i h)

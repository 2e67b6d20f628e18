-- ===== src/Json/Quote.antt =====
-- wc3hook/json.h: the strings of a reply, read by the rules of JSON.
use wc3env.Prelude.{
  ℕ, zero, suc, ◌+◌, ◌-◌, ◌*◌, ◌/◌, ◌%◌, ◌<◌, ◌^◌, ◌≡◌, refl, ap, ◌∙◌, inl, inr, true, false, Bool,
  ◌&&◌, ◌||◌, Option, none, some, [], ◌∷◌, ◌++◌, if◌then◌else◌, ltb, leb, ◌==◌, length, arith,
  Bool-cases, ltb→lt, lt→ltb,
}
use mathlib.Core.List.{append_assoc}
use wc3env.Json.{Bytes, codes, hex, Writer, Outcome, done, aborted, jw_str}
use wc3env.Json.Grow.{IsWriter, Writes, writes, refused}
use wc3env.Json.Write.{escape, escapes, quoted, jw_str-Writes}

-- Where a reader of a string is: between characters, after a backslash, or before so many digits.
data Mode : Type 0 where
  plain : Mode
  escaped : Mode
  digits : ℕ → ℕ → Mode

-- What the next byte is: the end, no string, or the move to another mode, maybe with a character.
data Move : Type 0 where
  ends : Move
  wrong : Move
  go : Mode → Move
  read : ℕ → Move

unfoldable hex_value : ℕ → Option ℕ
hex_value c =
    if leb b'0' c && leb c b'9'
    then some (c - b'0')
    else if leb b'a' c && leb c b'f'
    then some (c - b'a' + 10)
    else if leb b'A' c && leb c b'F'
    then some (c - b'A' + 10)
    else none

-- The characters that stand for themselves after a backslash, and the letters.
abbrev simple_escape : ℕ → Move
simple_escape c =
    if c == b'"' || c == b'\\' || c == b'/'
    then read c
    else if c == b'b'
    then read 8
    else if c == b'f'
    then read 12
    else if c == b'n'
    then read 10
    else if c == b'r'
    then read 13
    else if c == b't'
    then read 9
    else if c == b'u'
    then go (digits 3 0)
    else wrong

-- A code point of one byte.
abbrev one_byte : ℕ → Move
one_byte n = if ltb n 0x80 then read n else wrong

unfoldable move : Mode → ℕ → Move
move plain c =
    if c == b'"'
    then ends
    else if c == b'\\'
    then go escaped
    else if ltb c 0x20
    then wrong
    else read c
move escaped c = simple_escape c
move (digits left n) c = elim (hex_value c) [
  | none ↦ wrong
  | some d ↦ elim left [ zero ↦ one_byte (n * 16 + d) | suc k ↦ go (digits k (n * 16 + d)) ]
]

abbrev and_char : ℕ → Option (Bytes × Bytes) → Option (Bytes × Bytes)
and_char c none = none
and_char c (some (s, rest)) = some (c ∷ s, rest)

-- The characters of a string up to its end, and what follows.
unfoldable read_chars : Mode → Bytes → Option (Bytes × Bytes)
read_chars m [] = none
read_chars m (c ∷ s) = elim (move m c) [
  | ends ↦ some ([], s)
  | wrong ↦ none
  | go m' ↦ read_chars m' s
  | read d ↦ and_char d (read_chars plain s)
]

-- A string at the front of a text.
pub unquote : Bytes → Option (Bytes × Bytes)
unquote [] = none
unquote (c ∷ s) = let chars = read_chars plain s in if c == b'"' then chars else none

module _ (m : Mode) (c : ℕ) (s : Bytes) where
  read_go : (m' : Mode) → move m c ≡ go m' → read_chars m (c ∷ s) ≡ read_chars m' s
  unfolding read_chars
  read_go m' e = rw (read_chars, e) refl

  read_read : (d : ℕ) → move m c ≡ read d → read_chars m (c ∷ s) ≡ and_char d (read_chars plain s)
  unfolding read_chars
  read_read d e = rw (read_chars, e) refl

hex_value-hex : (d : ℕ) → d < 16 → hex_value (hex d) ≡ some d
unfolding hex_value
hex_value-hex d h = ground arith

move-hex : (d : ℕ) → d < 16 → move (digits 1 0) (hex d) ≡ go (digits 0 d)
unfolding move
move-hex d h = rw (move, hex_value-hex d h) (ap (λ n. go (digits 0 n)) (omega arith))

move_last : (n d : ℕ) → d < 16 → n * 16 + d < 0x80 → move (digits 0 n) (hex d) ≡ read (n * 16 + d)
unfolding move
move_last n d h k = rw (move, hex_value-hex d h, lt→ltb (n * 16 + d) 0x80 k) refl

move_plain :
    (c : ℕ) → (c == b'"' || c == b'\\') ≡ false → ltb c 0x20 ≡ false → move plain c ≡ read c
unfolding move
move_plain c e e₂ = ground arith

move_escaped : (c : ℕ) → (c == b'"' || c == b'\\') ≡ true → move escaped c ≡ read c
unfolding move
move_escaped c e = ground arith

module _ (c : ℕ) (t : Bytes) where
  read_control :
      c < 0x20
      → read_chars plain (codes "\\u00" ++ (hex (c / 16) ∷ hex (c % 16) ∷ t))
        ≡ and_char c (read_chars plain t)
  unfolding move hex_value
  read_control h =
      read_go plain b'\\' _ escaped refl
      ∙ read_go escaped b'u' _ (digits 3 0) refl
      ∙ read_go (digits 3 0) b'0' _ (digits 2 0) refl
      ∙ read_go (digits 2 0) b'0' _ (digits 1 0) refl
      ∙ read_go (digits 1 0) (hex (c / 16)) _ (digits 0 (c / 16)) (move-hex (c / 16) (omega arith))
      ∙ read_read (digits 0 (c / 16)) (hex (c % 16)) t (c / 16 * 16 + c % 16)
          (move_last (c / 16) (c % 16) (omega arith) (omega arith))
      ∙ ap (λ d. and_char d (read_chars plain t)) (omega arith)

  read_escape : read_chars plain (escape c ++ t) ≡ and_char c (read_chars plain t)
  unfolding move
  read_escape = elim (Bool-cases (c == b'"' || c == b'\\')) [
    | inl e ↦ rw e (read_go plain b'\\' _ escaped refl ∙ read_read escaped c t c (move_escaped c e))
    | inr e ↦ elim (Bool-cases (ltb c 0x20)) [
      | inl e₂ ↦ rw (e, e₂) (read_control (ltb→lt c 0x20 e₂))
      | inr e₂ ↦ rw (e, e₂) (read_read plain c t c (move_plain c e e₂))
    ]
  ]

joined : (a b c d : Bytes) → a ++ b ++ c ++ d ≡ a ++ (b ++ c ++ d)
joined a b c d = simp append_assoc

read_chars-escapes :
    (s rest : Bytes) → read_chars plain (escapes s ++ (b'"' ∷ []) ++ rest) ≡ some (s, rest)
unfolding read_chars move
read_chars-escapes [] rest = refl
read_chars-escapes (c ∷ s) rest =
    ap (read_chars plain) (joined (escape c) (escapes s) (b'"' ∷ []) rest)
    ∙ read_escape c (escapes s ++ (b'"' ∷ []) ++ rest)
    ∙ ap (and_char c) (read_chars-escapes s rest)

unquote-quoted : (s rest : Bytes) → unquote (quoted s ++ rest) ≡ some (s, rest)
unfolding unquote
unquote-quoted s rest = read_chars-escapes s rest

-- What a writer's string is read as: `t` is the text that it has put at the end.
pub data Quotes (granted : ℕ → Bool) (w : Writer) (s : Bytes) : Outcome → Type 0 where
  quotes :
      (v : Writer) (t : Bytes)
      → v.text ≡ w.text ++ t
      → ((rest : Bytes) → unquote (t ++ rest) ≡ some (s, rest))
      → Quotes granted w s (done v)
  no_room : (size : ℕ) → granted size ≡ false → Quotes granted w s aborted

-- A string of any bytes that the writer puts at the end of its text reads back as these bytes by the
-- rules of JSON, whatever follows it: quotes, backslashes and control characters come through, and none
-- stands bare. The writer stops only where memory is refused. The text and six bytes for each of the
-- string's stay below 2 ^ 31.
pub jw_str-Quotes :
    (granted : ℕ → Bool) (s : Bytes) (w : Writer)
    → IsWriter w
    → length w.text + 6 * length s + 2 < 2 ^ 31
    → Quotes granted w s (jw_str granted s w)
jw_str-Quotes granted s w i h = of_writes (jw_str-Writes granted s w i h)
  where
    of_writes : {o : Outcome} → Writes granted (w.text ++ quoted s) w.comma o → Quotes granted w s o
    of_writes (writes v et ec iv) = quotes v (quoted s) et (unquote-quoted s)
    of_writes (refused size e) = no_room size e

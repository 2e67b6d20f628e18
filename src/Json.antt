-- ===== src/Json.antt =====
-- wc3hook/json.h: the writer of replies, and the accessors of requests. `realloc` is a parameter: for
-- each size, whether memory of it is given. What yyjson says of a value is an argument of the
-- accessors. Text is a list of bytes, without the zero that ends it.
pub mod Grow
pub mod Write
pub mod Puts
pub mod Quote
pub mod Tree
pub mod Tests
use wc3env.Prelude.{
  ℕ, zero, suc, ◌+◌, ◌-◌, ◌*◌, ◌/◌, ◌%◌, ◌^◌, Bool, true, false, ◌&&◌, ◌||◌, not, Option, none,
  some, List, [], ◌∷◌, ◌++◌, if◌then◌else◌, ltb, leb, ◌==◌, length,
}
use wc3env.Prelude.Int.{ℤ, pos, negsuc}
use Prim.Native.Char.{code}
use Prim.Native.String.{String}

abbrev pub Bytes : Type 0
Bytes = List ℕ

-- The bytes of a literal of the source.
abbrev pub codes : String → Bytes
codes String.[] = []
codes (String.◌∷◌ c s) = code c ∷ codes s

-- `JW`: `n` is the length of `text`; without memory `cap` is 0.
pub record Writer : Type 0 where
  pub text : Bytes
  pub cap : ℕ
  pub comma : Bool

-- A write is done, or stops in `abort()`, or goes past the memory, or never ends.
pub data Outcome : Type 0 where
  done : Writer → Outcome
  aborted : Outcome
  overrun : Outcome
  hang : Outcome

infixl 20 ◌>>=◌
unfoldable pub ◌>>=◌ : Outcome → (Writer → Outcome) → Outcome
done w >>= f = f w
aborted >>= f = aborted
overrun >>= f = overrun
hang >>= f = hang

-- The loop of `jw_grow`, on sizes of 32 bits: at most 32 rounds double a size to 0.
pub doubled : ℕ → ℕ → ℕ → Option ℕ
doubled zero cap want = none
doubled (suc fuel) cap want =
    let more = doubled fuel (cap * 2 % 2 ^ 32) want in if ltb cap want then more else some cap

-- Bytes put at the end, and a zero after them.
pub put_zero : Bytes → Writer → Outcome
put_zero s w =
    if ltb (length w.text + length s) w.cap then done (record w { text = w.text ++ s }) else overrun

-- Bytes put at the end without one.
pub put : Bytes → Writer → Outcome
put s w =
    if leb (length w.text + length s) w.cap then done (record w { text = w.text ++ s }) else overrun

pub set_comma : Bool → Writer → Outcome
set_comma c w = done (record w { comma = c })

-- The hexadecimal digit of `%x`.
abbrev hex : ℕ → ℕ
hex d = if ltb d 10 then b'0' + d else b'a' + (d - 10)

pub put_char : ℕ → Writer → Outcome
put_char c w =
    if c == b'"' || c == b'\\'
    then put (b'\\' ∷ []) w >>= put (c ∷ [])
    else if ltb c 0x20
    then put_zero (codes "\\u00" ++ (hex (c / 16) ∷ hex (c % 16) ∷ [])) w
    else put (c ∷ []) w

pub put_chars : Bytes → Writer → Outcome
put_chars [] w = done w
put_chars (c ∷ s) w = put_char c w >>= put_chars s

-- `%u` prints a number by its decimal digits; `fuel` is more than there are.
unfoldable pub digits : ℕ → ℕ → Bytes
digits zero n = []
digits (suc fuel) n =
    let front = digits fuel (n / 10) in
    if ltb n 10 then (b'0' + n) ∷ [] else front ++ ((b'0' + n % 10) ∷ [])

unfoldable pub decimal : ℤ → Bytes
decimal (pos n) = digits 20 n
decimal (negsuc n) = b'-' ∷ digits 20 (n + 1)

-- The bytes before the first zero.
unfoldable pub c_string : Bytes → Bytes
c_string [] = []
c_string (c ∷ s) = if c == 0 then [] else c ∷ c_string s

module _ (granted : ℕ → Bool) where
  pub jw_grow : ℕ → Writer → Outcome
  jw_grow need w =
      let want = (length w.text + need + 1) % 2 ^ 32 in
      let start = if w.cap == 0 then 2 ^ 16 else w.cap * 2 % 2 ^ 32 in
      if leb want w.cap then done w else elim (doubled 33 start want) [
        | none ↦ hang
        | some cap ↦ if granted cap then done (record w { cap = cap }) else aborted
      ]

  pub jw_reset : Writer → Outcome
  jw_reset w = jw_grow 0 w >>= λ w. put_zero [] (record w { text = []; comma = false })

  pub jw_raw : Bytes → Writer → Outcome
  jw_raw s w = jw_grow (length s) w >>= put_zero s

  pub jw_sep : Writer → Outcome
  jw_sep w = (if w.comma then jw_raw (codes ",") w else done w) >>= set_comma true

  pub jw_str : Bytes → Writer → Outcome
  jw_str s w =
      jw_grow ((length s * 6 + 2) % 2 ^ 32) w
      >>= put (b'"' ∷ [])
      >>= put_chars s
      >>= put_zero (b'"' ∷ [])

  pub jw_key : Bytes → Writer → Outcome
  jw_key k w = jw_sep w >>= jw_str k >>= jw_raw (codes ":") >>= set_comma false

  pub jw_int : ℤ → Writer → Outcome
  jw_int v w = jw_sep w >>= jw_raw (decimal v)

  pub jw_uint : ℕ → Writer → Outcome
  jw_uint v w = jw_sep w >>= jw_raw (digits 20 v)

  pub jw_bool : Bool → Writer → Outcome
  jw_bool v w = jw_sep w >>= jw_raw (if v then codes "true" else codes "false")

  pub jw_null : Writer → Outcome
  jw_null w = jw_sep w >>= jw_raw (codes "null")

  pub jw_string : Bytes → Writer → Outcome
  jw_string s w = jw_sep w >>= jw_str s

  pub jw_open : ℕ → Writer → Outcome
  jw_open c w = jw_sep w >>= jw_raw (c ∷ []) >>= set_comma false

  pub jw_close : ℕ → Writer → Outcome
  jw_close c w = jw_raw (c ∷ []) w >>= set_comma true

  pub jw_fourcc : ℕ → Writer → Outcome
  jw_fourcc t w =
      jw_string (c_string (t / 2 ^ 24 ∷ t / 2 ^ 16 % 256 ∷ t / 2 ^ 8 % 256 ∷ t % 256 ∷ [])) w

  pub jw_splice : Writer → Writer → Outcome
  jw_splice v w = if length v.text == 0 then done w else jw_sep w >>= jw_raw v.text

-- What yyjson says a value is: a signed and an unsigned number.
pub jr_is_int : Option ℤ → Option ℕ → Option ℤ
jr_is_int (some v) u = some v
jr_is_int none (some u) = if ltb u (2 ^ 63) then some (pos u) else none
jr_is_int none none = none

abbrev pub has_zero : Bytes → Bool
has_zero [] = false
has_zero (c ∷ s) = c == 0 || has_zero s

-- The text of a string, if the memory of `cap` bytes takes it and a zero.
unfoldable pub jr_str : Option Bytes → ℕ → Option Bytes
jr_str none cap = none
jr_str (some s) cap = if cap == 0 || leb cap (length s) || has_zero s then none else some s

pub jr_fourcc : Option Bytes → ℕ
jr_fourcc v = elim (jr_str v 5) [
  | none ↦ 0
  | some (a ∷ b ∷ c ∷ d ∷ []) ↦ a * 2 ^ 24 + b * 2 ^ 16 + c * 2 ^ 8 + d
  | some _ ↦ 0
]

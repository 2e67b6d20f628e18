-- ===== src/Json/Puts.antt =====
-- wc3hook/json.h: operations that put text at the end, one after the other.
use wc3env.Prelude.{
  ℕ, ◌+◌, ◌*◌, ◌^◌, ◌≤◌, ◌<◌, ◌≡◌, refl, ap, subst, ◌∙◌, Bool, true, false, [], ◌∷◌, ◌++◌,
  if◌then◌else◌, length, arith, length-append,
}
use wc3env.Prelude.Int.{ℤ}
use mathlib.Core.List.{append_assoc}
use wc3env.Json.{
  Bytes, codes, Writer, Outcome, ◌>>=◌, set_comma, jw_raw, jw_sep, jw_str, jw_key, jw_int, jw_bool,
  jw_null, jw_string, jw_open, jw_close, decimal,
}
use wc3env.Json.Grow.{IsWriter, Writes, >>=-Writes}
use wc3env.Json.Write.{
  quoted, sep, set_comma-Writes, length-quoted, jw_raw-Writes, jw_str-Writes, sep_body,
}

-- An operation that puts `s` at the end of any text, from this comma to that one, where the text and
-- `need` bytes stay below 2 ^ 31.
pub data Puts (granted : ℕ → Bool) (s : Bytes) (c c' : Bool) (need : ℕ) (f : Writer → Outcome)
    : Type 0 where
  puts :
      ((w : Writer)
        → w.comma ≡ c
        → IsWriter w
        → length w.text + need < 2 ^ 31
        → Writes granted (w.text ++ s) c' (f w))
      → Puts granted s c c' need f

pub Puts-Writes :
    {granted : ℕ → Bool} {s : Bytes} {c c' : Bool} {need : ℕ} {f : Writer → Outcome}
    → Puts granted s c c' need f
    → (w : Writer) → w.comma ≡ c
    → IsWriter w
    → length w.text + need < 2 ^ 31
    → Writes granted (w.text ++ s) c' (f w)
Puts-Writes (puts k) = k

pub Puts-then :
    {granted : ℕ → Bool} {s s' : Bytes} {c c' c'' : Bool} {n n' m : ℕ} {f g : Writer → Outcome}
    → Puts granted s c c' n f
    → Puts granted s' c' c'' n' g
    → n ≤ m
    → length s + n' ≤ m
    → Puts granted (s ++ s') c c'' m (λ w. f w >>= g)
Puts-then {granted} {s} {s'} {c} {c'} {c''} {n} {n'} {m} {f} {g} (puts p) (puts q) hn hm =
    puts λ w ec i h. >>=-Writes g (p w ec i (omega arith)) λ v et ec₂ iv.
      subst (λ u. Writes granted u c'' (g v)) (ap (λ t. t ++ s') et ∙ append_assoc w.text s s')
        (q v ec₂ iv (rw (et, length-append) (omega arith)))

-- The comma that an operation leaves, set anew.
pub Puts-comma :
    {granted : ℕ → Bool} {s : Bytes} {c c' : Bool} {n : ℕ} {f : Writer → Outcome} (c'' : Bool)
    → Puts granted s c c' n f
    → Puts granted s c c'' n (λ w. f w >>= set_comma c'')
Puts-comma {granted} {s} {c} {c'} {n} {f} c'' (puts p) = puts λ w ec i h.
    >>=-Writes (set_comma c'') (p w ec i h) λ v et ec₂ iv.
      subst (λ u. Writes granted u c'' (set_comma c'' v)) et (set_comma-Writes c'' v iv)

pub length-sep : (c : Bool) → length (sep c) ≤ 1
length-sep true = omega arith
length-sep false = omega arith

module _ (granted : ℕ → Bool) where
  pub jw_raw-Puts : (s : Bytes) (c : Bool) → Puts granted s c c (length s) (jw_raw granted s)
  jw_raw-Puts s c = puts λ w ec i h.
      subst (λ c. Writes granted (w.text ++ s) c (jw_raw granted s w)) ec
        (jw_raw-Writes granted s w i h)

  pub jw_str-Puts :
      (s : Bytes) (c : Bool) → Puts granted (quoted s) c c (6 * length s + 2) (jw_str granted s)
  jw_str-Puts s c = puts λ w ec i h.
      subst (λ c. Writes granted (w.text ++ quoted s) c (jw_str granted s w)) ec
        (jw_str-Writes granted s w i (omega arith))

  pub jw_sep-Puts : (c : Bool) → Puts granted (sep c) c true 1 (jw_sep granted)
  unfolding jw_sep
  jw_sep-Puts c = puts λ w ec i h.
      subst (λ c. Writes granted (w.text ++ sep c) true (jw_sep granted w)) ec
        (sep_body granted w.comma w refl i h)

  -- A value: the comma that is due, then its text.
  raw_value :
      (s : Bytes) (c : Bool)
      → Puts granted (sep c ++ s) c true (length s + 1) (λ w. jw_sep granted w >>= jw_raw granted s)
  raw_value s c =
      Puts-then (jw_sep-Puts c) (jw_raw-Puts s true) (omega arith) (omega (arith, length-sep c))

  pub jw_null-Puts : (c : Bool) → Puts granted (sep c ++ codes "null") c true 5 (jw_null granted)
  unfolding jw_null
  jw_null-Puts c = raw_value (codes "null") c

  pub jw_bool-Puts :
      (b c : Bool)
      → Puts granted
          (sep c ++ (if b then codes "true" else codes "false"))
          c
          true
          6
          (jw_bool granted b)
  unfolding jw_bool
  jw_bool-Puts true c =
      Puts-then (jw_sep-Puts c) (jw_raw-Puts (codes "true") true) (omega arith)
        (omega (arith, length-sep c))
  jw_bool-Puts false c = raw_value (codes "false") c

  pub jw_int-Puts :
      (v : ℤ) (c : Bool)
      → Puts granted (sep c ++ decimal v) c true (length (decimal v) + 1) (jw_int granted v)
  unfolding jw_int
  jw_int-Puts v c = raw_value (decimal v) c

  pub jw_string-Puts :
      (s : Bytes) (c : Bool)
      → Puts granted (sep c ++ quoted s) c true (6 * length s + 3) (jw_string granted s)
  unfolding jw_string
  jw_string-Puts s c =
      Puts-then (jw_sep-Puts c) (jw_str-Puts s true) (omega arith) (omega (arith, length-sep c))

  pub jw_open-Puts :
      (b : ℕ) (c : Bool) → Puts granted (sep c ++ (b ∷ [])) c false 2 (jw_open granted b)
  unfolding jw_open
  jw_open-Puts b c = Puts-comma false (raw_value (b ∷ []) c)

  pub jw_close-Puts : (b : ℕ) (c : Bool) → Puts granted (b ∷ []) c true 1 (jw_close granted b)
  unfolding jw_close
  jw_close-Puts b c = Puts-comma true (jw_raw-Puts (b ∷ []) c)

  pub jw_key-Puts :
      (k : Bytes) (c : Bool)
      → Puts granted (sep c ++ quoted k ++ codes ":") c false (6 * length k + 4) (jw_key granted k)
  unfolding jw_key
  jw_key-Puts k c = Puts-comma false (
      Puts-then
        (Puts-then {m = 6 * length k + 3} (jw_sep-Puts c) (jw_str-Puts k true) (omega arith)
          (omega (arith, length-sep c)))
        (jw_raw-Puts (codes ":") true) (omega arith)
        (rw length-append (omega (arith, length-sep c, length-quoted k))))

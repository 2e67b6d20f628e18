-- ===== src/Json/Write.antt =====
-- wc3hook/json.h: what each operation of the writer puts at the end of its text, within its memory.
use wc3env.Prelude.{
  ℕ, ◌+◌, ◌*◌, ◌/◌, ◌%◌, ◌^◌, ◌≤◌, ◌<◌, ◌≡◌, refl, ap, subst, ◌∙◌, inl, inr, Bool, true, false,
  ◌||◌, [], ◌∷◌, ◌++◌, if◌then◌else◌, ltb, ◌==◌, length, arith, Bool-cases, length-append,
}
use mathlib.Core.List.{append-nil, append_assoc}
use wc3env.Json.{
  Bytes, codes, Writer, Outcome, done, ◌>>=◌, hex, put_zero, put, put_char, put_chars, set_comma,
  jw_raw, jw_str, jw_reset,
}
use wc3env.Json.Grow.{
  IsWriter, fresh, held, Writes, writes, refused, >>=-Writes, Grows, grows, denied, jw_grow-Grows,
}

-- A string as it stands in a reply: in quotes, with escapes.
abbrev pub escape : ℕ → Bytes
escape c =
    if c == b'"' || c == b'\\'
    then b'\\' ∷ c ∷ []
    else if ltb c 0x20
    then codes "\\u00" ++ (hex (c / 16) ∷ hex (c % 16) ∷ [])
    else c ∷ []

abbrev pub escapes : Bytes → Bytes
escapes [] = []
escapes (c ∷ s) = escape c ++ escapes s

abbrev pub quoted : Bytes → Bytes
quoted s = b'"' ∷ escapes s ++ (b'"' ∷ [])

pub length-escape : (c : ℕ) → length (escape c) ≤ 6
length-escape c = ground arith

pub length-escapes : (s : Bytes) → length (escapes s) ≤ 6 * length s
length-escapes [] = omega arith
length-escapes (c ∷ s) = rw length-append (omega (arith, length-escape c, length-escapes s))

-- The writer of `w`'s memory with this text.
abbrev with_text : Writer → Bytes → Writer
with_text w t = record w { text = t }

put_fits :
    (s : Bytes) (w : Writer)
    → length w.text + length s ≤ w.cap
    → put s w ≡ done (with_text w (w.text ++ s))
unfolding put
put_fits s w h = ground arith

put_zero_fits :
    (s : Bytes) (w : Writer)
    → length w.text + length s < w.cap
    → put_zero s w ≡ done (with_text w (w.text ++ s))
unfolding put_zero
put_zero_fits s w h = ground arith

put_char_fits :
    (c : ℕ) (w : Writer)
    → length w.text + 6 < w.cap
    → put_char c w ≡ done (with_text w (w.text ++ escape c))
unfolding put_char ◌>>=◌
put_char_fits c w h = elim (Bool-cases (c == b'"' || c == b'\\')) [
  | inl e ↦
      rw (e, put_fits (b'\\' ∷ []) w (omega arith))
        (rw
          (
            put_fits (c ∷ []) (with_text w (w.text ++ (b'\\' ∷ [])))
                (rw length-append (omega arith)),
            append_assoc,
          )
          refl)
  | inr e ↦ elim (Bool-cases (ltb c 0x20)) [
    | inl e₂ ↦ rw (e, e₂) (put_zero_fits _ w (omega arith))
    | inr e₂ ↦ rw (e, e₂) (put_fits _ w (omega arith))
  ]
]

put_chars_fits :
    (s : Bytes) (w : Writer)
    → length w.text + 6 * length s < w.cap
    → put_chars s w ≡ done (with_text w (w.text ++ escapes s))
unfolding put_chars ◌>>=◌
put_chars_fits [] w h = rw append-nil refl
put_chars_fits (c ∷ s) w h = rw (put_char_fits c w (omega arith)) (
    rw
      (
        put_chars_fits s (with_text w (w.text ++ escape c))
            (rw length-append (omega (arith, length-escape c))),
        append_assoc,
      )
      refl)

-- The comma before a value.
abbrev pub sep : Bool → Bytes
sep comma = if comma then codes "," else []

held_of :
    (w : Writer) (t : Bytes) (c : Bool)
    → IsWriter w
    → length t < w.cap
    → IsWriter (record w { text = t; comma = c })
held_of w t c (fresh e et) h = absurd (omega arith)
held_of w t c (held j hj s hl) h = held j hj s h

pub set_comma-Writes :
    {granted : ℕ → Bool} (c : Bool) (w : Writer)
    → IsWriter w
    → Writes granted w.text c (set_comma c w)
unfolding set_comma
set_comma-Writes c w (fresh e et) = writes _ refl refl (fresh e et)
set_comma-Writes c w (held j hj s hl) = writes _ refl refl (held j hj s hl)

put-quoted :
    (s : Bytes) (v : Writer)
    → length v.text + (length s * 6 + 2) < v.cap
    → (done v >>= put (b'"' ∷ []) >>= put_chars s >>= put_zero (b'"' ∷ []))
      ≡ done (with_text v (v.text ++ quoted s))
unfolding ◌>>=◌
put-quoted s v h = rw (put_fits (b'"' ∷ []) v (omega arith)) (
    rw (put_chars_fits s (with_text v (v.text ++ (b'"' ∷ []))) (rw length-append (omega arith))) (
      put_zero_fits (b'"' ∷ []) (with_text v (v.text ++ (b'"' ∷ []) ++ escapes s))
        (rw (length-append, length-append) (omega (arith, length-escapes s)))
      ∙ ap (λ t. done (with_text v t)) joined))
  where
    joined : v.text ++ (b'"' ∷ []) ++ escapes s ++ (b'"' ∷ []) ≡ v.text ++ quoted s
    joined = simp append_assoc

pub length-quoted : (s : Bytes) → length (quoted s) ≤ 6 * length s + 2
length-quoted s = rw length-append (omega (arith, length-escapes s))

module _ (granted : ℕ → Bool) where
  jw_raw_body :
      (s : Bytes) (w : Writer) (o : Outcome)
      → Grows granted w (length s) o
      → Writes granted (w.text ++ s) w.comma (o >>= put_zero s)
  unfolding ◌>>=◌
  jw_raw_body s w _ (grows cap i h) =
      rw (put_zero_fits s (record w { cap = cap }) h)
        (writes _ refl refl (held_of (record w { cap = cap }) _ w.comma i (rw length-append h)))
  jw_raw_body s w _ (denied n e) = refused n e

  pub jw_raw-Writes :
      (s : Bytes) (w : Writer)
      → IsWriter w
      → length w.text + length s < 2 ^ 31
      → Writes granted (w.text ++ s) w.comma (jw_raw granted s w)
  unfolding jw_raw
  jw_raw-Writes s w i h = jw_raw_body s w _ (jw_grow-Grows granted w (length s) i h)

  jw_str_body :
      (s : Bytes) (w : Writer) (o : Outcome)
      → Grows granted w (length s * 6 + 2) o
      → Writes granted
          (w.text ++ quoted s)
          w.comma
          (o >>= put (b'"' ∷ []) >>= put_chars s >>= put_zero (b'"' ∷ []))
  unfolding ◌>>=◌
  jw_str_body s w _ (grows cap i h) = rw (put-quoted s (record w { cap = cap }) h) (
      writes _ refl refl (
        held_of (record w { cap = cap }) _ w.comma i
          (rw length-append (omega (arith, length-quoted s)))))
  jw_str_body s w _ (denied n e) = refused n e

  pub jw_str-Writes :
      (s : Bytes) (w : Writer)
      → IsWriter w
      → length w.text + 6 * length s + 2 < 2 ^ 31
      → Writes granted (w.text ++ quoted s) w.comma (jw_str granted s w)
  unfolding jw_str
  jw_str-Writes s w i h =
      rw small (jw_str_body s w _ (jw_grow-Grows granted w (length s * 6 + 2) i (omega arith)))
    where
      small : (length s * 6 + 2) % 2 ^ 32 ≡ length s * 6 + 2
      small = omega arith

  pub sep_body :
      (b : Bool) (w : Writer)
      → w.comma ≡ b
      → IsWriter w
      → length w.text + 1 < 2 ^ 31
      → Writes granted
          (w.text ++ sep b)
          true
          ((if b then jw_raw granted (codes ",") w else done w) >>= set_comma true)
  unfolding ◌>>=◌
  sep_body true w e i h = >>=-Writes _ (jw_raw-Writes (codes ",") w i h) (λ v et ec iv.
      subst (λ t. Writes granted t true (set_comma true v)) et (set_comma-Writes true v iv))
  sep_body false w e i h = rw append-nil (set_comma-Writes true w i)

  -- An emptied writer.
  reset_body :
      (w : Writer) (o : Outcome)
      → Grows granted w 0 o
      → Writes granted [] false (o >>= λ v. put_zero [] (record v { text = []; comma = false }))
  unfolding ◌>>=◌
  reset_body w _ (grows cap i h) =
      rw (put_zero_fits [] (record { text = []; cap = cap; comma = false }) (omega arith))
        (writes _ refl refl (held_of (record w { cap = cap }) [] false i (omega arith)))
  reset_body w _ (denied n e) = refused n e

  pub jw_reset-Writes :
      (w : Writer)
      → IsWriter w
      → length w.text < 2 ^ 31
      → Writes granted [] false (jw_reset granted w)
  unfolding jw_reset
  jw_reset-Writes w i h = reset_body w _ (jw_grow-Grows granted w 0 i (omega arith))

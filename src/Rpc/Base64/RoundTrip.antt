-- ===== src/Rpc/Base64/RoundTrip.antt =====
-- wc3hook/rpc.c, base64_bytes: the bytes of an encoded text.
use wc3env.Prelude.{
  ℕ, zero, suc, ◌+◌, ◌*◌, ◌/◌, ◌%◌, ◌^◌, ◌<◌, ◌≡◌, refl, ap, ◌∙◌, Bool, true, false, Option, none,
  some, [], ◌∷◌, ◌&&◌, not, ◌==◌, length, get_or, All, arith, ==→eq,
}
use wc3env.Json.{Bytes}
use wc3env.Rpc.Base64.{abc, place_in, decode, base64_bytes}

-- RFC 4648: three bytes are four characters of six bits, and `=` fills the last four.
unfoldable letter : ℕ → ℕ
unfolding abc
letter d = get_or abc d 0

pub encode : Bytes → Bytes
encode [] = []
encode (a ∷ []) = letter (a / 4) ∷ letter (a % 4 * 16) ∷ b'=' ∷ b'=' ∷ []
encode (a ∷ b ∷ []) =
    letter (a / 4) ∷ letter (a % 4 * 16 + b / 16) ∷ letter (b % 16 * 4) ∷ b'=' ∷ []
encode (a ∷ b ∷ c ∷ s) =
    letter (a / 4)
    ∷ letter (a % 4 * 16 + b / 16)
    ∷ letter (b % 16 * 4 + c / 64)
    ∷ letter (c % 64)
    ∷ encode s

abbrev found : ℕ → Option ℕ → Bool
found d none = false
found d (some e) = e == d

abbrev good_letter : ℕ → Bool
good_letter d = found d (place_in 0 abc (letter d)) && not (letter d == b'=')

all_below : (ℕ → Bool) → ℕ → Bool
all_below p zero = true
all_below p (suc n) = p n && all_below p n

all_below-lt : (p : ℕ → Bool) (n d : ℕ) → all_below p n ≡ true → d < n → p d ≡ true
unfolding all_below
all_below-lt p zero d e h = absurd (omega arith)
all_below-lt p (suc n) d e h = ground (arith, all_below-lt p n d)

letters_good : all_below good_letter 64 ≡ true
unfolding all_below place_in abc letter
letters_good = refl

and_true : (a b : Bool) → (a && b) ≡ true → (a ≡ true) × (b ≡ true)
and_true true b e = (refl, e)
and_true false b e = absurd (ground arith)

found-eq : (d : ℕ) (o : Option ℕ) → found d o ≡ true → o ≡ some d
found-eq d none e = absurd (ground arith)
found-eq d (some k) e = ap some (==→eq k d e)

place-letter : (d : ℕ) → d < 64 → place_in 0 abc (letter d) ≡ some d
place-letter d h = found-eq d _ (and_true _ _ (all_below-lt good_letter 64 d letters_good h)).0

letter_not_fill : (d : ℕ) → d < 64 → (letter d == b'=') ≡ false
letter_not_fill d h =
    of_not (letter d == b'=') (and_true _ _ (all_below-lt good_letter 64 d letters_good h)).1
  where
    of_not : (b : Bool) → not b ≡ true → b ≡ false
    of_not true e = absurd (ground arith)
    of_not false e = refl

abbrev and_byte : ℕ → Option Bytes → Option Bytes
and_byte b none = none
and_byte b (some rest) = some (b ∷ rest)

-- The bits that the loop keeps.
abbrev pushed : ℕ → ℕ → ℕ
pushed bits d = (bits * 64 + d) % 2 ^ 32

-- One character: its bits are kept, or with them a byte is full.
decode_keep :
    (d bits n : ℕ) (t : Bytes)
    → d < 64
    → decode (letter d ∷ t) bits 0 n ≡ decode t (pushed bits d) 6 n
unfolding decode
decode_keep d bits n t h = rw (decode, letter_not_fill d h, place-letter d h) refl

decode_at_6 :
    (d bits m : ℕ) (t : Bytes)
    → d < 64
    → decode (letter d ∷ t) bits 6 (suc m)
      ≡ and_byte (pushed bits d / 16 % 256) (decode t (pushed bits d) 4 m)
unfolding decode
decode_at_6 d bits m t h = rw (decode, letter_not_fill d h, place-letter d h) refl

decode_at_4 :
    (d bits m : ℕ) (t : Bytes)
    → d < 64
    → decode (letter d ∷ t) bits 4 (suc m)
      ≡ and_byte (pushed bits d / 4 % 256) (decode t (pushed bits d) 2 m)
unfolding decode
decode_at_4 d bits m t h = rw (decode, letter_not_fill d h, place-letter d h) refl

decode_at_2 :
    (d bits m : ℕ) (t : Bytes)
    → d < 64
    → decode (letter d ∷ t) bits 2 (suc m)
      ≡ and_byte (pushed bits d / 1 % 256) (decode t (pushed bits d) 0 m)
unfolding decode
decode_at_2 d bits m t h = rw (decode, letter_not_fill d h, place-letter d h) refl

decode_none : (bits have : ℕ) → decode [] bits have 0 ≡ some []
unfolding decode
decode_none bits have = refl

decode_fill : (bits have : ℕ) (t : Bytes) → decode (b'=' ∷ t) bits have 0 ≡ some []
unfolding decode
decode_fill bits have t = refl

-- The byte that fills up after the second, the third and the fourth character of a group.
second : (bits d e : ℕ) → d < 64 → e < 64 → pushed (pushed bits d) e % 4096 ≡ d * 64 + e
second bits d e hd he = omega arith

first_byte :
    (bits a z : ℕ)
    → a < 256
    → z < 64
    → z / 16 ≡ a % 4
    → pushed (pushed bits (a / 4)) z / 16 % 256 ≡ a
first_byte bits a z ha hz e = omega (arith, e, second bits (a / 4) z (omega arith) hz)

second_byte :
    (bits z b u : ℕ)
    → z < 64
    → u < 64
    → b < 256
    → z % 16 ≡ b / 16
    → u / 4 ≡ b % 16
    → pushed (pushed bits z) u / 4 % 256 ≡ b
second_byte bits z b u hz hu hb e e₂ = omega (arith, e, e₂, second bits z u hz hu)

third_byte :
    (bits u c : ℕ)
    → u < 64
    → c < 256
    → u % 4 ≡ c / 64
    → pushed (pushed bits u) (c % 64) / 1 % 256 ≡ c
third_byte bits u c hu hc e = omega (arith, e, second bits u (c % 64) hu (omega arith))

module _ (bits a z n : ℕ) (t : Bytes) (ha : a < 256) (hz : z < 64) (e : z / 16 ≡ a % 4) where
  -- Two characters.
  two_letters :
      decode (letter (a / 4) ∷ letter z ∷ t) bits 0 (suc n)
      ≡ and_byte a (decode t (pushed (pushed bits (a / 4)) z) 4 n)
  two_letters =
      decode_keep (a / 4) bits (suc n) (letter z ∷ t) (omega arith)
      ∙ decode_at_6 z (pushed bits (a / 4)) n t hz
      ∙ ap (λ x. and_byte x (decode t (pushed (pushed bits (a / 4)) z) 4 n))
          (first_byte bits a z ha hz e)

module _ (bits z b u n : ℕ) (t : Bytes) (hz : z < 64) (hu : u < 64) (hb : b < 256)
    (e : z % 16 ≡ b / 16) (e₂ : u / 4 ≡ b % 16) where
  third_letter :
      decode (letter u ∷ t) (pushed bits z) 4 (suc n)
      ≡ and_byte b (decode t (pushed (pushed bits z) u) 2 n)
  third_letter =
      decode_at_4 u (pushed bits z) n t hu
      ∙ ap (λ x. and_byte x (decode t (pushed (pushed bits z) u) 2 n))
          (second_byte bits z b u hz hu hb e e₂)

module _ (bits u c n : ℕ) (t : Bytes) (hu : u < 64) (hc : c < 256) (e : u % 4 ≡ c / 64) where
  fourth_letter :
      decode (letter (c % 64) ∷ t) (pushed bits u) 2 (suc n)
      ≡ and_byte c (decode t (pushed (pushed bits u) (c % 64)) 0 n)
  fourth_letter =
      decode_at_2 (c % 64) (pushed bits u) n t (omega arith)
      ∙ ap (λ x. and_byte x (decode t (pushed (pushed bits u) (c % 64)) 0 n))
          (third_byte bits u c hu hc e)

decode-encode :
    (s : Bytes) (bits : ℕ) → All (λ b. b < 256) s → decode (encode s) bits 0 (length s) ≡ some s
unfolding encode
decode-encode [] bits h = decode_none bits 0
decode-encode (a ∷ []) bits (ha, _) =
    two_letters bits a (a % 4 * 16) 0 (b'=' ∷ b'=' ∷ []) ha (omega arith) (omega arith)
    ∙ ap (and_byte a) (decode_fill (pushed (pushed bits (a / 4)) (a % 4 * 16)) 4 (b'=' ∷ []))
decode-encode (a ∷ b ∷ []) bits (ha, (hb, _)) =
    two_letters bits a (a % 4 * 16 + b / 16) 1 _ ha (omega arith) (omega arith)
    ∙ ap (and_byte a) (
        third_letter (pushed bits (a / 4)) (a % 4 * 16 + b / 16) b (b % 16 * 4) 0 (b'=' ∷ [])
          (omega arith) (omega arith) hb (omega arith) (omega arith)
        ∙ ap (and_byte b) (
            decode_fill (pushed (pushed (pushed bits (a / 4)) (a % 4 * 16 + b / 16)) (b % 16 * 4)) 2
              []))
decode-encode (a ∷ b ∷ c ∷ s) bits (ha, (hb, (hc, hs))) =
    two_letters bits a (a % 4 * 16 + b / 16) (suc (suc (length s))) _ ha (omega arith) (omega arith)
    ∙ ap (and_byte a) (
        third_letter (pushed bits (a / 4)) (a % 4 * 16 + b / 16) b (b % 16 * 4 + c / 64)
          (suc (length s)) _ (omega arith) (omega arith) hb (omega arith) (omega arith)
        ∙ ap (and_byte b) (
            fourth_letter (pushed (pushed bits (a / 4)) (a % 4 * 16 + b / 16)) (b % 16 * 4 + c / 64)
              c (length s) (encode s) (omega arith) hc (omega arith)
            ∙ ap (and_byte c) (decode-encode s _ hs)))

-- The decoder returns the bytes that a standard encoder made a text of, where it is asked for as many.
pub base64_bytes-encode :
    (s : Bytes) → All (λ b. b < 256) s → base64_bytes (encode s) (length s) ≡ some s
unfolding base64_bytes
base64_bytes-encode s h = decode-encode s 0 h

-- ===== src/Json/Tests.antt =====
-- Values of wc3hook/json.h.
use wc3env.Prelude.{ℕ, ◌<◌, ◌≡◌, refl, Bool, true, false, Option, none, some, [], ◌∷◌, ◌++◌, arith}
use wc3env.Prelude.Int.{pos, negsuc}
use wc3env.Json.{
  Bytes, codes, Writer, Outcome, done, ◌>>=◌, jw_grow, doubled, jw_raw, put_zero, put, put_char,
  put_chars, set_comma, jw_sep, jw_str, jw_key, jw_int, jw_null, jw_string, jw_open, jw_close,
  decimal, digits,
}
use wc3env.Json.Grow.{fresh, Writes}
use wc3env.Json.Write.{sep}
use wc3env.Json.Quote.{Quotes, jw_str-Quotes}
use wc3env.Json.Tree.{
  Value, null, int, string, array, object, no_values, value, no_fields, field, print, room, write,
  write_values, write_fields, print_values, print_fields, room_values, room_fields, write-print,
}

abbrev no_text : Writer
no_text = record { text = []; cap = 0; comma = false }

abbrev gives : ℕ → Bool
gives n = true

-- {"error":"a\"b","list":[1,-2,null]}
abbrev reply : Value
reply = object (
    field (codes "error") (string (codes "a\"b")) (
      field (codes "list")
        (array (value (int (pos 1)) (value (int (negsuc 1)) (value null no_values)))) no_fields))

print-reply : print reply ≡ codes "{\"error\":\"a\\\"b\",\"list\":[1,-2,null]}"
unfolding print print_values print_fields decimal digits
print-reply = refl

abbrev text_of : Outcome → Option Bytes
text_of (done w) = some w.text
text_of _ = none

write-reply :
    text_of (write gives reply no_text) ≡ some (codes "{\"error\":\"a\\\"b\",\"list\":[1,-2,null]}")
unfolding write write_values write_fields jw_open jw_sep jw_raw jw_grow doubled put_zero set_comma
    ◌>>=◌ jw_key jw_str put put_chars put_char jw_string jw_int jw_null jw_close decimal digits
write-reply = refl

room-reply : room reply < 1000
unfolding room room_values room_fields decimal digits
room-reply = omega arith

write-print_example :
    Writes gives (no_text.text ++ sep no_text.comma ++ print reply) true (write gives reply no_text)
write-print_example = write-print gives reply no_text (fresh refl refl) (omega (arith, room-reply))

jw_str-Quotes_example :
    Quotes gives no_text (b'"' ∷ 0x0a ∷ []) (jw_str gives (b'"' ∷ 0x0a ∷ []) no_text)
jw_str-Quotes_example =
    jw_str-Quotes gives (b'"' ∷ 0x0a ∷ []) no_text (fresh refl refl) (omega arith)

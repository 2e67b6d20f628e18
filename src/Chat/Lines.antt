-- ===== src/Chat/Lines.antt =====
-- wc3hook/chat.c: whatever is typed, the lines that are observed.
use mathlib.Core.Path.{fun_ext}
use wc3env.Prelude.{
  ℕ, ◌+◌, ◌-◌, ◌*◌, ◌^◌, ◌≤◌, ◌<◌, ◌≡◌, inl, inr, refl, sym, ap, subst, Bool, true, false, not,
  ◌&&◌, List, [], ◌∷◌, ◌++◌, ltb, leb, ltb→lt, leb→le, ◌==◌, arith, Bool-cases, length,
  length-append, All, All-append,
}
use wc3env.Json.{Bytes, Writer, ◌>>=◌, jw_open, jw_close, jw_string}
use wc3env.Json.Grow.{IsWriter, Writes}
use wc3env.Json.Write.{sep}
use wc3env.Json.Tree.{
  string, array, Values, no_values, value, print, write, write_values, room, room_values,
  write-print,
}
use wc3env.Chat.{
  Chat, chat_lines, chat_len, drop_last, is_empty, enter, chat_key, chat_keys, start, write_lines,
  chat_write_json,
}

abbrev pub Printable : ℕ → Type 0
Printable c = (32 ≤ c) × (c < 127)

-- A line that was sent: not empty, of printable characters, and with room for the zero behind it.
pub record IsLine (s : Bytes) : Type 0 where
  pub some_text : 0 < length s
  pub short : length s < chat_len
  pub plain : All Printable s

pub record IsChat (c : Chat) : Type 0 where
  pub fits : length c.typing < chat_len
  pub plain : All Printable c.typing
  pub few : length c.sent ≤ chat_lines
  pub lines : All IsLine c.sent

drop_last-All : (s : Bytes) → All Printable s → All Printable (drop_last s)
unfolding drop_last
drop_last-All [] h = tt
drop_last-All (c ∷ []) h = tt
drop_last-All (c ∷ (d ∷ s)) h = (h.0, drop_last-All (d ∷ s) h.1)

length-drop_last : (s : Bytes) → length (drop_last s) ≤ length s
unfolding drop_last
length-drop_last [] = omega arith
length-drop_last (c ∷ []) = omega arith
length-drop_last (c ∷ (d ∷ s)) = omega (arith, length-drop_last (d ∷ s))

not-is_empty : (s : Bytes) → is_empty s ≡ false → 0 < length s
not-is_empty [] h = absurd (ground arith)
not-is_empty (c ∷ s) h = omega arith

enter-IsChat : (c : Chat) → IsChat c → IsChat (enter c)
unfolding enter
enter-IsChat c v =
    elim (Bool-cases (c.is_open && not (is_empty c.typing) && ltb (length c.sent) chat_lines)) [
      | inr e ↦ rw e (record { fits = omega arith; plain = tt; few = v.few; lines = v.lines })
      | inl e ↦ rw e (record {
        fits = omega arith;
        plain = tt;
        few = omega (
          arith,
          length-append {0} c.sent (c.typing ∷ []),
          ltb→lt (length c.sent) chat_lines (ground arith),
        );
        lines = All-append IsLine c.sent (c.typing ∷ []) v.lines (
          record {
            some_text = not-is_empty c.typing (ground arith);
            short = v.fits;
            plain = v.plain;
          },
          tt,
        );
      })
    ]

typed-IsChat :
    (c : Chat) (wp : ℕ)
    → (c.is_open && leb 0x20 wp && ltb wp 0x7f && ltb (length c.typing) (chat_len - 1)) ≡ true
    → IsChat c
    → IsChat (record c { typing = c.typing ++ wp ∷ [] })
typed-IsChat c wp h v = record {
  fits = omega (
    arith,
    length-append {0} c.typing (wp ∷ []),
    ltb→lt (length c.typing) (chat_len - 1) (ground arith),
  );
  plain =
      All-append Printable c.typing (wp ∷ []) v.plain
        ((leb→le 0x20 wp (ground arith), ltb→lt wp 0x7f (ground arith)), tt);
  few = v.few;
  lines = v.lines;
}

chat_key-IsChat : (is_char : Bool) (wp : ℕ) (c : Chat) → IsChat c → IsChat (chat_key is_char wp c)
unfolding chat_key
chat_key-IsChat false wp c v = v
chat_key-IsChat true wp c v = elim (Bool-cases (wp == 13)) [
  | inl e ↦ rw e (enter-IsChat c v)
  | inr e ↦ elim (Bool-cases (wp == 0x1b)) [
    | inl g ↦ rw e (rw g (record { fits = omega arith; plain = tt; few = v.few; lines = v.lines }))
    | inr g ↦ elim (Bool-cases (c.is_open && wp == 8)) [
      | inl b ↦ rw e (
          rw g (
            rw b (record {
              fits = omega (arith, v.fits, length-drop_last c.typing);
              plain = drop_last-All c.typing v.plain;
              few = v.few;
              lines = v.lines;
            })))
      | inr b ↦
          elim (Bool-cases
            (c.is_open && leb 0x20 wp && ltb wp 0x7f && ltb (length c.typing) (chat_len - 1))) [
              | inl t ↦ rw e (rw g (rw b (rw t (typed-IsChat c wp t v))))
              | inr t ↦ rw e (rw g (rw b (rw t v)))
            ]
    ]
  ]
]

chat_keys-IsChat : (keys : List (Bool × ℕ)) (c : Chat) → IsChat c → IsChat (chat_keys keys c)
unfolding chat_keys
chat_keys-IsChat [] c v = v
chat_keys-IsChat ((is_char, wp) ∷ keys) c v =
    chat_keys-IsChat keys (chat_key is_char wp c) (chat_key-IsChat is_char wp c v)

start-IsChat : IsChat start
start-IsChat = record { fits = omega arith; plain = tt; few = omega arith; lines = tt }

-- The lines as values of JSON.
pub strings : List Bytes → Values
strings [] = no_values
strings (s ∷ ss) = value (string s) (strings ss)

write_lines-values :
    (granted : ℕ → Bool) (ss : List Bytes) (w : Writer)
    → write_lines granted ss w ≡ write_values granted (strings ss) w
unfolding write_lines strings write_values write
write_lines-values granted [] w = refl
write_lines-values granted (s ∷ ss) w =
    ap (λ g. jw_string granted s w >>= g) (fun_ext (write_lines-values granted ss))

room-strings : (ss : List Bytes) → All IsLine ss → room_values (strings ss) ≤ 1539 * length ss
unfolding strings room_values room
room-strings [] h = omega arith
room-strings (s ∷ ss) h = omega (arith, h.0.short, room-strings ss h.1)

room-array : (vs : Values) → room (array vs) ≡ room_values vs + 3
unfolding room
room-array vs = refl

lines_written :
    (granted : ℕ → Bool) (ss : List Bytes) (w : Writer)
    → (jw_open granted b'[' w >>= write_lines granted ss >>= jw_close granted b']')
      ≡ write granted (array (strings ss)) w
unfolding write
lines_written granted ss w =
    ap (λ g. jw_open granted b'[' w >>= g >>= jw_close granted b']')
      (fun_ext (write_lines-values granted ss))

-- After any keys, the lines that were sent are at most 16, none empty, each of printable characters and
-- shorter than 256; a reply that has room takes them as one JSON array of strings, in the order in which
-- they were sent, and none is left for the next. It stops only where memory is refused.
pub chat_write_json-print :
    (granted : ℕ → Bool) (keys : List (Bool × ℕ)) (w : Writer)
    → IsWriter w
    → length w.text < 2 ^ 30
    → Writes granted
        (w.text ++ sep w.comma ++ print (array (strings (chat_keys keys start).sent)))
        true
        (chat_write_json granted (chat_keys keys start) w).0
      × IsChat (chat_keys keys start)
      × ((chat_write_json granted (chat_keys keys start) w).1.sent ≡ [])
unfolding chat_write_json
chat_write_json-print granted keys w i h = (
  subst (Writes granted (w.text ++ sep w.comma ++ print (array (strings ss))) true) same
      (write-print granted (array (strings ss)) w i enough),
  v,
  refl,
)
  where
    v : IsChat (chat_keys keys start)
    v = chat_keys-IsChat keys start start-IsChat

    ss : List Bytes
    ss = (chat_keys keys start).sent

    enough : length w.text + room (array (strings ss)) < 2 ^ 31
    enough = omega (arith, h, v.few, room-array (strings ss), room-strings ss v.lines)

    same :
        write granted (array (strings ss)) w
        ≡ (jw_open granted b'[' w >>= write_lines granted ss >>= jw_close granted b']')
    same = sym (lines_written granted ss w)

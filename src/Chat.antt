-- ===== src/Chat.antt =====
-- wc3hook/chat.c: the chat lines that the person at the window types, for the local player's next
-- observation. The lock makes each call one step.
pub mod Lines
pub mod Tests
use wc3env.Prelude.{
  ℕ, zero, suc, ◌+◌, ◌-◌, Bool, true, false, not, ◌&&◌, List, [], ◌∷◌, ◌++◌, if◌then◌else◌, ltb,
  leb, ◌==◌, length,
}
use wc3env.Json.{Bytes, Writer, Outcome, done, ◌>>=◌, jw_open, jw_string, jw_close}

-- `typing` is the line in the open chat box, the first g_typed characters of g_typing, and `sent` the
-- lines that are not yet observed.
pub record Chat : Type 0 where
  pub typing : Bytes
  pub is_open : Bool
  pub sent : List Bytes

abbrev pub chat_lines : ℕ
chat_lines = 16

abbrev pub chat_len : ℕ
chat_len = 256

pub drop_last : Bytes → Bytes
drop_last [] = []
drop_last (c ∷ []) = []
drop_last (c ∷ (d ∷ s)) = c ∷ drop_last (d ∷ s)

abbrev pub is_empty : Bytes → Bool
is_empty [] = true
is_empty (c ∷ s) = false

-- Enter: the line goes out if there is one and there is room.
pub enter : Chat → Chat
enter c = record {
  typing = [];
  is_open = not c.is_open;
  sent =
      (if c.is_open && not (is_empty c.typing) && ltb (length c.sent) chat_lines
        then c.sent ++ c.typing ∷ []
        else c.sent);
}

-- `is_char` is `msg == WM_CHAR`.
pub chat_key : Bool → ℕ → Chat → Chat
chat_key is_char wp c =
    if not is_char
    then c
    else if wp == 13
    then enter c
    else if wp == 0x1b
    then record c { typing = []; is_open = false }
    else if c.is_open && wp == 8
    then record c { typing = drop_last c.typing }
    else if c.is_open && leb 0x20 wp && ltb wp 0x7f && ltb (length c.typing) (chat_len - 1)
    then record c { typing = c.typing ++ wp ∷ [] }
    else c

pub chat_keys : List (Bool × ℕ) → Chat → Chat
chat_keys [] c = c
chat_keys ((is_char, wp) ∷ keys) c = chat_keys keys (chat_key is_char wp c)

abbrev pub start : Chat
start = record { typing = []; is_open = false; sent = [] }

module _ (granted : ℕ → Bool) where
  pub write_lines : List Bytes → Writer → Outcome
  write_lines [] w = done w
  write_lines (s ∷ ss) w = jw_string granted s w >>= write_lines ss

  -- The lines go into the reply, and the queue empties.
  pub chat_write_json : Chat → Writer → Outcome × Chat
  chat_write_json c w = (
    jw_open granted b'[' w >>= write_lines c.sent >>= jw_close granted b']',
    record c { sent = [] },
  )

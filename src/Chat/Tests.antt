-- ===== src/Chat/Tests.antt =====
-- wc3hook/chat.c: two keys between Enters, and what a reply takes of them.
use wc3env.Prelude.{ℕ, ◌≡◌, Bool, true, false, List, [], ◌∷◌, ◌++◌, arith, refl}
use wc3env.Json.{Writer}
use wc3env.Json.Grow.{fresh, Writes}
use wc3env.Json.Write.{sep}
use wc3env.Json.Tree.{array, print}
use wc3env.Chat.{chat_keys, chat_key, enter, start, chat_write_json}
use wc3env.Chat.Lines.{IsChat, strings, chat_write_json-print}

abbrev hi_keys : List (Bool × ℕ)
hi_keys = (true, 13) ∷ (true, b'h') ∷ (true, b'i') ∷ (true, 13) ∷ []

hi_sent : (chat_keys hi_keys start).sent ≡ (b'h' ∷ b'i' ∷ []) ∷ []
unfolding chat_keys chat_key enter
hi_sent = refl

abbrev no_text : Writer
no_text = record { text = []; cap = 0; comma = false }

abbrev gives : ℕ → Bool
gives n = true

chat_write_json-print_example :
    Writes gives
      (no_text.text ++ sep no_text.comma ++ print (array (strings (chat_keys hi_keys start).sent)))
      true
      (chat_write_json gives (chat_keys hi_keys start) no_text).0
    × IsChat (chat_keys hi_keys start)
    × ((chat_write_json gives (chat_keys hi_keys start) no_text).1.sent ≡ [])
chat_write_json-print_example =
    chat_write_json-print gives hi_keys no_text (fresh refl refl) (omega arith)

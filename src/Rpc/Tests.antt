-- ===== src/Rpc/Tests.antt =====
-- A request to wc3hook/rpc.c, as a tree of values.
use wc3env.Prelude.{
  ℕ, ◌≤◌, ◌<◌, ◌^◌, ◌≡◌, refl, inr, Bool, true, false, Option, none, some, List, [], ◌∷◌, ◌==◌,
  if◌then◌else◌, leb, arith,
}
use wc3env.Prelude.Int.{pos}
use wc3env.Json.{Bytes, codes, Writer, decimal, digits}
use wc3env.Json.Grow.{IsWriter, held, Writes}
use wc3env.Json.Tree.{print, room}
use wc3env.Rpc.Replies.{status_name, reply_error}
use wc3env.Rpc.Replies.Texts.{error_reply, reply_error-print}
use wc3env.Rpc.{Yyjson, same_text, items}
use wc3env.Rpc.Parse.{act_parse}
use wc3env.Rpc.Parse.Sound.{IsBatch, act_parse-IsBatch}
use wc3env.Rpc.Binary.{Writers, IsBounded, Seen, binary_job, binary_list}
use wc3env.Rpc.Binary.Layout.{IsWritten, binary_job-IsWritten}
use wc3env.Rpc.Binary.Players.{IsListed, binary_list-IsListed}
use wc3env.Rpc.Base64.{base64_bytes}
use wc3env.Rpc.Base64.RoundTrip.{encode, base64_bytes-encode}
use wc3env.Rpc.Server.{Server, in_game, stepping, World}
use wc3env.Rpc.Handle.{rpc_handle}
use wc3env.Rpc.Served.{IsServer, IsServed}
use wc3env.Rpc.Served.Handle.{rpc_handle-IsServed}

mutual
  data Node : Type 0 where
    number : ℕ → Node
    text : Bytes → Node
    array : Nodes → Node
    object : Members → Node

  data Nodes : Type 0 where
    end : Nodes
    node : Node → Nodes → Nodes

  data Members : Type 0 where
    last : Members
    member : Bytes → Node → Members → Members

list_of : Nodes → List Node
list_of end = []
list_of (node v vs) = v ∷ list_of vs

members_of : Members → List (Bytes × Node)
members_of last = []
members_of (member k v ms) = (k, v) ∷ members_of ms

find : Members → Bytes → Option Node
find last key = none
find (member k v ms) key = let rest = find ms key in if same_text k key then some v else rest

is_object : Node → Bool
is_object (object ms) = true
is_object _ = false

is_array : Node → Bool
is_array (array vs) = true
is_array _ = false

number_of : Node → Option ℕ
number_of (number n) = some n
number_of _ = none

text_of : Node → Option Bytes
text_of (text s) = some s
text_of _ = none

get_of : Node → Bytes → Option Node
get_of (object ms) key = find ms key
get_of _ key = none

elements_of : Node → List Node
elements_of (array vs) = list_of vs
elements_of _ = []

fields_of : Node → List (Bytes × Node)
fields_of (object ms) = members_of ms
fields_of _ = []

abbrev reader : Yyjson Node ℕ
reader = record {
  is_obj = is_object;
  is_arr = is_array;
  is_bool = λ v. false;
  get_bool = λ v. false;
  get_sint = λ v. none;
  get_uint = number_of;
  get_num = number_of;
  get_str = text_of;
  obj_get = get_of;
  elements = elements_of;
  members = fields_of;
}

-- Observations of 1000 bytes and features of 12, where there is room.
abbrev writers : Writers
writers = record {
  obs_write = λ room p seq. if leb 1000 room then 1000 else 0;
  features = λ p. p == 3;
  feat_step = λ p at size last. false;
  feat_write = λ room p. if leb 12 room then 12 else 0;
}

room_or_none : (n room : ℕ) → (if leb n room then n else 0) ≤ room
room_or_none n room = ground arith

writers-IsBounded : IsBounded writers
writers-IsBounded = record {
  obs_fits = λ room p seq. room_or_none 1000 room;
  feat_fits = λ room p. room_or_none 12 room;
}

abbrev world : World ℕ
world = record {
  map = codes "maps\\lt.w3x";
  is_replay = false;
  is_offline = true;
  is_agent = λ p. p == 3;
  answers = λ j. true;
  late = λ j. false;
  restarts = true;
  holds = true;
  saves = true;
  setup_error = false;
  loaded = λ p. record {
    race = 1;
    control = 0;
    slot_state = 1;
    random_race = false;
    prepared_agent = true;
  };
  configure_error = λ agents. false;
  allocated = true;
  step_error = λ ms. false;
  finishes = true;
  game_over = false;
  closed = false;
  mapped = true;
  writers = writers;
  is_stage = λ op. false;
  stage_error = λ op. false;
  far = λ x. leb 1000001 x;
  is_speed = λ f. leb f 2048;
}

abbrev first_seen : Seen
first_seen = record { obs_seq = λ p. 0; has_last = λ p. false }

abbrev playing : Server
playing = record {
  status = in_game;
  mode = stepping;
  seen = first_seen;
  features = λ p. false;
  step_players = [];
  quit = false;
}

playing-IsServer : IsServer playing
playing-IsServer = inr (λ e. absurd (ground arith))

-- {"protocol_version": 1, "id": 1, "method": "act", "params": {"player": 3, "actions": [...]}}
abbrev actions : Node
actions = array (
    node
      (object
        (member (codes "unit_id") (number 7) (member (codes "command") (text (codes "stop")) last)))
      end)

abbrev request : Node
request = object (
    member (codes "protocol_version") (number 1) (
      member (codes "id") (number 1) (
        member (codes "method") (text (codes "act")) (
          member (codes "params")
            (object (member (codes "player") (number 3) (member (codes "actions") actions last)))
            last))))

rpc_handle-IsServed_example :
    IsServed world playing (rpc_handle reader world (some request) playing)
rpc_handle-IsServed_example =
    rpc_handle-IsServed reader world (some request) playing playing-IsServer

act_parse-IsBatch_example :
    IsBatch reader world.far true
      (items reader (some actions))
      (act_parse reader world.far true (some actions))
act_parse-IsBatch_example = act_parse-IsBatch reader world.far true (some actions)

binary_job-IsWritten_example : IsWritten 0 (3 ∷ 4 ∷ []) (binary_job writers (3 ∷ 4 ∷ []) first_seen)
binary_job-IsWritten_example =
    binary_job-IsWritten writers writers-IsBounded (3 ∷ 4 ∷ []) first_seen

abbrev observe : Node
observe = array (node (number 3) (node (number 4) end))

binary_list-IsListed_example :
    IsListed reader true (some observe) (binary_list reader true (some observe))
binary_list-IsListed_example = binary_list-IsListed reader true (some observe)

base64_bytes-encode_example :
    base64_bytes (encode (3 ∷ 0 ∷ 255 ∷ 7 ∷ [])) 4 ≡ some (3 ∷ 0 ∷ 255 ∷ 7 ∷ [])
base64_bytes-encode_example =
    base64_bytes-encode (3 ∷ 0 ∷ 255 ∷ 7 ∷ [])
      (omega arith, (omega arith, (omega arith, (omega arith, tt))))

-- The writer still holds the beginning of another reply.
abbrev half_written : Writer
half_written = record { text = codes "{\"protocol"; cap = 65536; comma = false }

half_written-IsWriter : IsWriter half_written
half_written-IsWriter = held 15 (omega arith) refl (omega arith)

abbrev gives : ℕ → Bool
gives n = true

error_room : room (error_reply (pos 7) in_game (codes "bad_params") (codes "no \"map\"")) < 2 ^ 31
unfolding room decimal digits status_name
error_room = omega arith

reply_error-print_example :
    Writes gives
      (print (error_reply (pos 7) in_game (codes "bad_params") (codes "no \"map\"")))
      true
      (reply_error gives (pos 7) in_game (codes "bad_params") (codes "no \"map\"") half_written)
reply_error-print_example =
    reply_error-print gives (pos 7) in_game (codes "bad_params") (codes "no \"map\"") half_written
      half_written-IsWriter (omega arith) error_room

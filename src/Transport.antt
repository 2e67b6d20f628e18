-- ===== src/Transport.antt =====
-- wc3hook/transport.c: the lines of a client's requests, cut out of what the pipe brings, and the
-- choice of what handles a line. What the pipe holds and how much of it a read returns is up to the
-- system.
pub mod Lines
pub mod Serve
pub mod Tests
use wc3env.Prelude.{
  ℕ, zero, suc, ◌+◌, ◌-◌, ◌≤◌, ◌<◌, Bool, true, false, ◌&&◌, ◌||◌, Option, none, some, List, [],
  ◌∷◌, ◌++◌, if◌then◌else◌, ◌==◌, length, take, drop,
}
use wc3env.Json.{Bytes, codes, c_string}
use mathlib.Core.Path.{◌≡◌}

abbrev pub newline : ℕ
newline = 0x0a

abbrev pub and_before : ℕ → Option (Bytes × Bytes) → Option (Bytes × Bytes)
and_before c none = none
and_before c (some (before, after)) = some (c ∷ before, after)

-- `strchr`: the bytes before the first `b` and those after it, up to the zero that ends the text.
unfoldable pub strchr : ℕ → Bytes → Option (Bytes × Bytes)
strchr b [] = none
strchr b (c ∷ s) =
    let rest = and_before c (strchr b s) in
    if c == 0 then none else if c == b then some ([], s) else rest

-- A line without the carriage return at its end.
unfoldable pub strip : Bytes → Bytes
strip [] = []
strip (c ∷ []) = if c == 0x0d then [] else c ∷ []
strip (c ∷ d ∷ s) = c ∷ strip (d ∷ s)

-- The lines that are handled and the bytes that stay in the buffer. `fuel` bounds the lines.
unfoldable pub take_lines : ℕ → Bytes → Option (List Bytes × Bytes)
take_lines zero s = none
take_lines (suc fuel) s = elim (strchr newline s) [
  | none ↦ some ([], c_string s)
  | some (line, after) ↦ elim (take_lines fuel after) [
    | none ↦ none
    | some (lines, left) ↦ some (strip line ∷ lines, left)
  ]
]

abbrev pub buffer_size : ℕ
buffer_size = 65536

-- A client's connection: the bytes in the buffer, those still in the pipe, the lines handled.
pub record Connection : Type 0 where
  pub used : Bytes
  pub input : Bytes
  pub handled : List Bytes

-- The places of the buffer that a read may fill.
abbrev pub room : Connection → ℕ
room c = buffer_size - length c.used - 1

-- What the loop does with the `got` bytes that a read returned.
unfoldable pub receive : ℕ → Connection → Option Connection
receive got c = elim (take_lines (suc (length c.used + got)) (c.used ++ take got c.input)) [
  | none ↦ none
  | some (lines, left) ↦
      some (record { used = left; input = drop got c.input; handled = c.handled ++ lines })
]

-- A read returns some of the bytes that are in the pipe, as many as there is room for at most.
pub data Step (c : Connection) : Connection → Type 0 where
  read :
      (got : ℕ) (after : Connection)
      → 0 < got
      → got ≤ room c
      → got ≤ length c.input
      → receive got c ≡ some after
      → Step c after

pub data Reached (first : Connection) : Connection → Type 0 where
  start : Reached first first
  then_read : {c after : Connection} → Reached first c → Step c after → Reached first after

abbrev pub connected : Bytes → Connection
connected input = record { used = []; input = input; handled = [] }

-- What handles a line: the requests' handler or the command of this place with its argument.
pub data Handler : Type 0 where
  rpc_handle : Bytes → Handler
  command : ℕ → Bytes → Handler

unfoldable pub commands : List Bytes
commands =
    codes "ping"
    ∷ codes "echo"
    ∷ codes "info"
    ∷ codes "where"
    ∷ codes "pktlog"
    ∷ codes "steplog"
    ∷ codes "scan"
    ∷ codes "dump"
    ∷ codes "trace"
    ∷ codes "watch"
    ∷ codes "profile"
    ∷ []

-- The argument, if the line is this name, alone or before a space.
unfoldable pub argument : Bytes → Bytes → Option Bytes
argument [] [] = some []
argument [] (c ∷ line) = if c == b' ' then some line else none
argument (n ∷ name) [] = none
argument (n ∷ name) (c ∷ line) = let rest = argument name line in if c == n then rest else none

unfoldable pub find_command : ℕ → List Bytes → Bytes → Handler
find_command i [] line = rpc_handle line
find_command i (name ∷ names) line = elim (argument name line) [
  | some arg ↦ command i arg
  | none ↦ find_command (suc i) names line
]

abbrev is_object : Bytes → Bool
is_object [] = false
is_object (c ∷ line) = c == b'{'

unfoldable pub handle_line : Bytes → Handler
handle_line line =
    let found = find_command 0 commands line in if is_object line then rpc_handle line else found

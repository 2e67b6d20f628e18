-- ===== src/Transport/Tests.antt =====
-- Inputs of wc3hook/transport.c.
use wc3env.Prelude.{ℕ, ◌<◌, ◌≡◌, refl, some, [], ◌∷◌, ◌++◌, arith, length, All, map}
use wc3env.Json.{Bytes, codes, c_string}
use wc3env.Transport.{
  Connection, Reached, start, then_read, read, connected, receive, take_lines, strchr, strip, room,
  handle_line, rpc_handle, command, find_command, commands, argument,
}
use wc3env.Transport.Lines.{split, IsText}
use wc3env.Transport.Serve.{handled-split, reads_on}

-- A command, a request and the beginning of a line.
abbrev input : Bytes
input = codes "ping\r\n{}\nx"

abbrev after_three : Connection
after_three = record { used = codes "pin"; input = codes "g\r\n{}\nx"; handled = [] }

abbrev after_all : Connection
after_all = record { used = codes "x"; input = []; handled = codes "ping" ∷ codes "{}" ∷ [] }

three : Reached (connected input) after_three
unfolding receive take_lines strchr strip c_string
three = then_read start (read 3 after_three (omega arith) (omega arith) (omega arith) refl)

all : Reached (connected input) after_all
unfolding receive take_lines strchr strip c_string
all = then_read three (read 7 after_all (omega arith) (omega arith) (omega arith) refl)

input-IsText : IsText input
input-IsText = (
  λ e. omega (arith, e),
  (
    λ e. omega (arith, e),
    (
      λ e. omega (arith, e),
      (
        λ e. omega (arith, e),
        (
          λ e. omega (arith, e),
          (
            λ e. omega (arith, e),
            (
              λ e. omega (arith, e),
              (λ e. omega (arith, e), (λ e. omega (arith, e), (λ e. omega (arith, e), tt))),
            ),
          ),
        ),
      ),
    ),
  ),
)

handled-split_example :
    (after_all.handled ≡ map strip (split input).0) × (after_all.used ≡ (split input).1)
handled-split_example = handled-split input after_all input-IsText all refl

short : All (λ l. length l < 65535) ((split input).0 ++ ((split input).1 ∷ []))
unfolding split
short = (omega arith, (omega arith, (omega arith, tt)))

reads_on_example :
    (0 < room after_three)
    × ((got : ℕ) → (after : Connection) × (receive got after_three ≡ some after))
reads_on_example = reads_on input after_three input-IsText short three

command_line : handle_line (codes "echo a b") ≡ command 1 (codes "a b")
unfolding handle_line find_command argument commands
command_line = refl

other_line : handle_line (codes "pings") ≡ rpc_handle (codes "pings")
unfolding handle_line find_command argument commands
other_line = refl

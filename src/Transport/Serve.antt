-- ===== src/Transport/Serve.antt =====
-- wc3hook/transport.c: the lines that are handled are those of the whole input, however the reads cut it
-- up.
use wc3env.Prelude.{
  ℕ, suc, ◌+◌, ◌<◌, ◌≡◌, refl, sym, ap, subst, ◌∙◌, some, List, [], ◌∷◌, ◌++◌, length, take, drop,
  All, All-append, arith, map, length-append,
}
use mathlib.Core.List.{map-append, append-nil, append_assoc}
use wc3env.Json.{Bytes}
use wc3env.Transport.{strip, Connection, receive, room, read, Reached, start, then_read, connected}
use wc3env.Transport.Lines.{
  split, IsText, take_lines-split, split-append, split_left-IsText, split-left, take-drop,
  length-take_le, All-left, All-right, first_piece, All-first_piece, length-first_piece,
}

-- What the reads so far have made of the input: `raw` are the lines handled, before they are stripped.
data IsServing (input : Bytes) (c : Connection) : Type 0 where
  serving :
      (raw : List Bytes)
      → c.handled ≡ map strip raw
      → split input ≡ (raw ++ (split (c.used ++ c.input)).0, (split (c.used ++ c.input)).1)
      → IsText (c.used ++ c.input)
      → split c.used ≡ ([], c.used)
      → IsServing input c

-- The text that the buffer holds once `got` bytes are read.
abbrev filled : ℕ → Connection → Bytes
filled got c = c.used ++ take got c.input

abbrev received : ℕ → Connection → Connection
received got c = record {
  used = (split (filled got c)).1;
  input = drop got c.input;
  handled = c.handled ++ map strip (split (filled got c)).0;
}

module _ (got : ℕ) (c : Connection) (text : IsText (c.used ++ c.input)) where
  refilled : filled got c ++ drop got c.input ≡ c.used ++ c.input
  refilled =
      append_assoc c.used (take got c.input) (drop got c.input)
      ∙ ap (λ t. c.used ++ t) (take-drop got c.input)

  IsText-filled : IsText (filled got c)
  IsText-filled = All-left _ (filled got c) (drop got c.input) (rw refilled text)

  receive-received : receive got c ≡ some (received got c)
  unfolding receive
  receive-received =
      rw
        (
          receive,
          take_lines-split (suc (length c.used + got)) (filled got c)
              (rw length-append (omega (arith, length-take_le got c.input))) IsText-filled,
        )
        refl

serve_step :
    (input : Bytes) (got : ℕ) (c : Connection)
    → IsServing input c
    → IsServing input (received got c)
serve_step input got c (serving raw eh es text eu) =
    serving (raw ++ (split (filled got c)).0)
      (rw eh (sym (map-append strip raw (split (filled got c)).0)))
      (es
        ∙ ap (λ p. (raw ++ p.0, p.1))
            (ap split (sym (refilled got c text)) ∙ split-append (filled got c) (drop got c.input))
        ∙ ap (λ t. (t, (split ((split (filled got c)).1 ++ drop got c.input)).1))
            (sym (
              append_assoc raw (split (filled got c)).0
                (split ((split (filled got c)).1 ++ drop got c.input)).0)))
      (All-append _ (split (filled got c)).1 (drop got c.input)
        (split_left-IsText (filled got c) (IsText-filled got c text))
        (All-right _ (filled got c) (drop got c.input) (rw (refilled got c text) text)))
      (split-left (filled got c))

serve_read :
    (input : Bytes) (got : ℕ) (c after : Connection)
    → IsServing input c
    → receive got c ≡ some after
    → IsServing input after
serve_read input got c after (serving raw eh es text eu) e =
    subst (IsServing input) same (serve_step input got c (serving raw eh es text eu))
  where
    same : received got c ≡ after
    same = cc (receive-received got c text, e)

Reached-IsServing :
    (input : Bytes) (c : Connection)
    → IsText input
    → Reached (connected input) c
    → IsServing input c
Reached-IsServing input _ h start = unfold split in serving [] refl refl h refl
Reached-IsServing input _ h (then_read {c} r (read got after pos hr hi e)) =
    serve_read input got c after (Reached-IsServing input c h r) e

-- The lines of the input, in their order and stripped, are what is handled once all of the input is
-- read, however the reads cut it up, and what follows the last newline stays in the buffer. The input has
-- no zeros.
pub handled-split :
    (input : Bytes) (c : Connection)
    → IsText input
    → Reached (connected input) c
    → c.input ≡ []
    → (c.handled ≡ map strip (split input).0) × (c.used ≡ (split input).1)
handled-split input c h r e = all_read (Reached-IsServing input c h r)
  where
    all_read :
        IsServing input c → (c.handled ≡ map strip (split input).0) × (c.used ≡ (split input).1)
    all_read (serving raw eh es text eu) =
        (eh ∙ ap (map strip) (sym (ap (λ p. p.0) ends)), sym (ap (λ p. p.1) ends))
      where
        ends : split input ≡ (raw, c.used)
        ends =
            es
            ∙ ap (λ p. (raw ++ p.0, p.1))
                (ap split (ap (λ t. c.used ++ t) e ∙ append-nil c.used) ∙ eu)
            ∙ ap (λ t. (t, c.used)) (append-nil raw)

-- While every line of the input, and what follows the last, is shorter than 65,535 bytes, a read is
-- asked for at least one byte, and whatever it returns of what the pipe holds, the loop over its lines
-- ends. The input has no zeros.
pub reads_on :
    (input : Bytes) (c : Connection)
    → IsText input
    → All (λ l. length l < 65535) ((split input).0 ++ ((split input).1 ∷ []))
    → Reached (connected input) c
    → (0 < room c) × ((got : ℕ) → (after : Connection) × (receive got c ≡ some after))
reads_on input c h short r = more (Reached-IsServing input c h r)
  where
    more :
        IsServing input c
        → (0 < room c) × ((got : ℕ) → (after : Connection) × (receive got c ≡ some after))
    more (serving raw eh es text eu) =
        (has_room, λ got. (received got c, receive-received got c text))
      where
        piece : length (first_piece (split (c.used ++ c.input))) < 65535
        piece =
            All-first_piece (λ l. length l < 65535) (split (c.used ++ c.input))
              (All-right _ raw _ (
                subst (All _) (append_assoc raw _ _)
                  (subst (λ p. All (λ l. length l < 65535) (p.0 ++ (p.1 ∷ []))) es short)))

        has_room : 0 < room c
        has_room = omega (arith, piece, length-first_piece c.used c.input eu)

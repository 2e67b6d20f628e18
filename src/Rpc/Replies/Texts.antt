-- ===== src/Rpc/Replies/Texts.antt =====
-- wc3hook/rpc.c: the text of the reply to an error.
use wc3env.Prelude.{
  ℕ, ◌+◌, ◌*◌, ◌^◌, ◌≤◌, ◌<◌, ◌≡◌, subst, Bool, true, false, [], ◌∷◌, ◌++◌, length, arith,
  length-append,
}
use wc3env.Prelude.Int.{ℤ, pos}
use mathlib.Core.List.{append_assoc, append-nil}
use wc3env.Json.{Bytes, codes, Writer, Outcome, ◌>>=◌, jw_open, jw_key, jw_close}
use wc3env.Json.Grow.{IsWriter, Writes, writes, refused}
use wc3env.Json.Write.{quoted, sep, length-quoted, jw_reset-Writes}
use wc3env.Json.Puts.{
  Puts, Puts-Writes, Puts-then, jw_open-Puts, jw_key-Puts, jw_close-Puts, length-sep,
}
use wc3env.Json.Tree.{
  Value, field, no_fields, object, int, bool, string, print, room, write, write-Puts, print-Short,
}
use wc3env.Rpc.Server.{Status}
use wc3env.Rpc.Replies.{status_name, reply_head, reply_error}

-- A member as it is put after others.
abbrev member : Bool → Bytes → Value → Bytes
member c k v = sep c ++ quoted k ++ codes ":" ++ print v

abbrev member_room : Bytes → Value → ℕ
member_room k v = 6 * length k + 4 + room v

module _ (granted : ℕ → Bool) where
  -- An operation with the length of its text.
  data Written (s : Bytes) (c : Bool) (n : ℕ) (f : Writer → Outcome) : Type 0 where
    puts_of : Puts granted s false c n f → length s ≤ n → Written s c n f

  opened : Written (b'{' ∷ []) false 2 (jw_open granted b'{')
  opened = puts_of (jw_open-Puts granted b'{' false) (omega arith)

  -- A member after these.
  and_member :
      {s : Bytes} {c : Bool} {n : ℕ} {f : Writer → Outcome} (k : Bytes) (v : Value)
      → Written s c n f
      → Written
          (s ++ member c k v)
          true
          (n + (6 * length k + 4 + room v))
          (λ w. f w >>= jw_key granted k >>= write granted v)
  and_member {s} {c} {n} {f} k v (puts_of p h) =
      puts_of
        (subst
          (λ t.
            Puts granted t false true (n + (6 * length k + 4 + room v))
              (λ w. f w >>= jw_key granted k >>= write granted v))
          joined both)
        short
    where
      both :
          Puts granted
            (s ++ (sep c ++ quoted k ++ codes ":") ++ print v)
            false
            true
            (n + (6 * length k + 4 + room v))
            (λ w. f w >>= jw_key granted k >>= write granted v)
      both =
          Puts-then
            (Puts-then {m = n + (6 * length k + 4)} p (jw_key-Puts granted k c) (omega arith)
              (omega (arith, h)))
            (write-Puts granted v false) (omega arith)
            (rw (length-append, length-append, length-append)
              (omega (arith, h, length-sep c, length-quoted k)))

      joined : s ++ (sep c ++ quoted k ++ codes ":") ++ print v ≡ s ++ member c k v
      joined = append_assoc s (sep c ++ quoted k ++ codes ":") (print v)

      short : length (s ++ member c k v) ≤ n + (6 * length k + 4 + room v)
      short =
          rw (length-append, length-append, length-append, length-append)
            (omega (arith, h, length-sep c, length-quoted k, print-Short v))

-- The value that a reply to an error is.
abbrev pub error_reply : ℤ → Status → Bytes → Bytes → Value
error_reply id status code detail = object (
    field (codes "protocol_version") (int (pos 1)) (
      field (codes "id") (int id) (
        field (codes "ok") (bool false) (
          field (codes "status") (string (status_name status)) (
            field (codes "error") (string code)
              (field (codes "detail") (string detail) no_fields))))))

module _ (granted : ℕ → Bool) (id : ℤ) (status : Status) (code detail : Bytes) where
  error_text : Bytes
  error_text =
      (b'{' ∷ [])
      ++ member false (codes "protocol_version") (int (pos 1))
      ++ member true (codes "id") (int id)
      ++ member true (codes "ok") (bool false)
      ++ member true (codes "status") (string (status_name status))
      ++ member true (codes "error") (string code)
      ++ member true (codes "detail") (string detail)

  error_room : ℕ
  error_room =
      2
      + member_room (codes "protocol_version") (int (pos 1))
      + member_room (codes "id") (int id)
      + member_room (codes "ok") (bool false)
      + member_room (codes "status") (string (status_name status))
      + member_room (codes "error") (string code)
      + member_room (codes "detail") (string detail)

  error_body : Written granted error_text true error_room (λ w.
      reply_head granted id false status w
      >>= jw_key granted (codes "error")
      >>= write granted (string code)
      >>= jw_key granted (codes "detail")
      >>= write granted (string detail))
  unfolding reply_head error_text error_room write
  error_body = and_member granted (codes "detail") (string detail) (
      and_member granted (codes "error") (string code) (
        and_member granted (codes "status") (string (status_name status)) (
          and_member granted (codes "ok") (bool false) (
            and_member granted (codes "id") (int id)
              (and_member granted (codes "protocol_version") (int (pos 1)) (opened granted))))))

  error_room_lem : error_room + 1 ≤ room (error_reply id status code detail)
  unfolding error_room room
  error_room_lem = omega arith

  error_text-print : error_text ++ (b'}' ∷ []) ≡ print (error_reply id status code detail)
  unfolding error_text print
  error_text-print = simp (append_assoc, append-nil)

  -- The reply, once the writer is emptied.
  error_closed :
      Puts granted
        (print (error_reply id status code detail))
        false
        true
        (room (error_reply id status code detail))
        (λ w.
          reply_head granted id false status w
          >>= jw_key granted (codes "error")
          >>= write granted (string code)
          >>= jw_key granted (codes "detail")
          >>= write granted (string detail)
          >>= jw_close granted b'}')
  error_closed = close error_body
    where
      close :
          {f : Writer → Outcome}
          → Written granted error_text true error_room f
          → Puts granted
              (print (error_reply id status code detail))
              false
              true
              (room (error_reply id status code detail))
              (λ w. f w >>= jw_close granted b'}')
      close {f} (puts_of p h) =
          subst
            (λ t.
              Puts granted t false true (room (error_reply id status code detail))
                (λ w. f w >>= jw_close granted b'}'))
            error_text-print
            (Puts-then p (jw_close-Puts granted b'}' true) (omega (arith, error_room_lem))
              (omega (arith, h, error_room_lem)))

  after_reset :
      (o : Outcome)
      → Writes granted [] false o
      → room (error_reply id status code detail) < 2 ^ 31
      → Writes granted (print (error_reply id status code detail)) true (
          o
          >>= reply_head granted id false status
          >>= jw_key granted (codes "error")
          >>= write granted (string code)
          >>= jw_key granted (codes "detail")
          >>= write granted (string detail)
          >>= jw_close granted b'}')
  unfolding ◌>>=◌
  after_reset _ (writes v et ec iv) h =
      subst
        (λ t. Writes granted (t ++ print (error_reply id status code detail)) true (
          reply_head granted id false status v
          >>= jw_key granted (codes "error")
          >>= write granted (string code)
          >>= jw_key granted (codes "detail")
          >>= write granted (string detail)
          >>= jw_close granted b'}'))
        et (Puts-Writes error_closed v ec iv (rw et (omega (arith, h))))
  after_reset _ (refused n e) h = refused n e

  -- What `reply_error` leaves in the writer is one JSON object, whatever part of another reply the writer
  -- holds by then: the version, the request's id, that it failed, the status, the code and the detail, in
  -- this order. It stops only where memory is refused. The object's size is below 2 ^ 31. The times that
  -- the request took, which are appended to every reply before it is sent, are not part of it.
  pub reply_error-print :
      (w : Writer)
      → IsWriter w
      → length w.text < 2 ^ 31
      → room (error_reply id status code detail) < 2 ^ 31
      → Writes granted
          (print (error_reply id status code detail))
          true
          (reply_error granted id status code detail w)
  unfolding reply_error write
  reply_error-print w i hw h = after_reset _ (jw_reset-Writes granted w i hw) h

-- ===== src/Rpc/Replies.antt =====
-- wc3hook/rpc.c: the head of a reply, the reply to an error, and the binary observations in a reply.
pub mod Texts
use wc3env.Prelude.{ℕ, Bool, true, false, List, [], ◌∷◌, ◌==◌, if◌then◌else◌}
use wc3env.Prelude.Int.{ℤ, pos}
use wc3env.Json.{
  Bytes, codes, Writer, Outcome, done, ◌>>=◌, jw_reset, jw_open, jw_close, jw_key, jw_int, jw_uint,
  jw_bool, jw_string,
}
use wc3env.Rpc.Binary.{Entry}
use wc3env.Rpc.Server.{
  Status, launched, in_game, ended, Code, bad_status, bad_params, bad_version, bad_request,
  not_stepping, unsupported_config, unknown_method,
}

unfoldable pub status_name : Status → Bytes
status_name launched = codes "launched"
status_name in_game = codes "in_game"
status_name ended = codes "ended"

module _ (granted : ℕ → Bool) where
  pub reply_head : ℤ → Bool → Status → Writer → Outcome
  reply_head id ok status w =
      jw_open granted b'{' w
      >>= jw_key granted (codes "protocol_version")
      >>= jw_int granted (pos 1)
      >>= jw_key granted (codes "id")
      >>= jw_int granted id
      >>= jw_key granted (codes "ok")
      >>= jw_bool granted ok
      >>= jw_key granted (codes "status")
      >>= jw_string granted (status_name status)

  pub reply_error : ℤ → Status → Bytes → Bytes → Writer → Outcome
  reply_error id status code detail w =
      jw_reset granted w
      >>= reply_head id false status
      >>= jw_key granted (codes "error")
      >>= jw_string granted code
      >>= jw_key granted (codes "detail")
      >>= jw_string granted detail
      >>= jw_close granted b'}'

  -- A player's features, if there are any.
  pub write_features : Entry → Writer → Outcome
  write_features e w =
      if e.features_size == 0
      then done w
      else jw_key granted (codes "features_offset") w
        >>= jw_uint granted e.features_offset
        >>= jw_key granted (codes "features_size")
        >>= jw_uint granted e.features_size

  pub write_entry : Entry → Writer → Outcome
  write_entry e w =
      jw_open granted b'{' w
      >>= jw_key granted (codes "player")
      >>= jw_int granted (pos e.player)
      >>= jw_key granted (codes "offset")
      >>= jw_uint granted e.offset
      >>= jw_key granted (codes "size")
      >>= jw_uint granted e.size
      >>= write_features e
      >>= jw_close granted b'}'

  pub write_entries : List Entry → Writer → Outcome
  write_entries [] w = done w
  write_entries (e ∷ es) w = write_entry e w >>= write_entries es

  pub write_binary : List Entry → Writer → Outcome
  write_binary es w =
      jw_key granted (codes "observations") w
      >>= jw_open granted b'['
      >>= write_entries es
      >>= jw_close granted b']'

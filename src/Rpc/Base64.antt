-- ===== src/Rpc/Base64.antt =====
-- wc3hook/rpc.c, base64_bytes.
pub mod RoundTrip
use wc3env.Prelude.{
  ℕ, zero, suc, ◌+◌, ◌-◌, ◌*◌, ◌/◌, ◌%◌, ◌^◌, Bool, true, false, Option, none, some, List, [], ◌∷◌,
  ◌++◌, ◌&&◌, ◌||◌, not, ◌==◌, if◌then◌else◌, ltb, leb, length,
}
use wc3env.Json.{Bytes, codes}

-- The place of a character in `ABC`; its zero is not one of them.
pub abc : Bytes
abc = codes "ABCDEFGHIJKLMNOPQRSTUVWXYZabcdefghijklmnopqrstuvwxyz0123456789+/"

pub place_in : ℕ → Bytes → ℕ → Option ℕ
place_in i [] c = none
place_in i (a ∷ letters) c =
    let rest = place_in (suc i) letters c in if a == c then some i else rest

-- `bits` and `have` are the loop's, `n` the bytes still expected; the bits are a word of 32 bits.
pub decode : Bytes → ℕ → ℕ → ℕ → Option Bytes
decode [] bits have n = if n == 0 then some [] else none
decode (c ∷ text) bits have n =
    if c == b'='
    then (if n == 0 then some [] else none)
    else elim (place_in 0 abc c) as (λ o. Option Bytes) [
      | none ↦ none
      | some d ↦
          let all = (bits * 64 + d) % 2 ^ 32 in
          if leb 8 (have + 6)
          then (elim n as (λ n. Option Bytes) [
            | zero ↦ none
            | suc m ↦ elim (decode text all (have + 6 - 8) m) as (λ o. Option Bytes) [
              | none ↦ none
              | some rest ↦ some (all / 2 ^ (have + 6 - 8) % 256 ∷ rest)
            ]
          ])
          else decode text all (have + 6) n
    ]

pub base64_bytes : Bytes → ℕ → Option Bytes
base64_bytes text n = decode text 0 0 n

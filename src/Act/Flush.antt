-- ===== src/Act/Flush.antt =====
-- wc3hook/act.c: the packets that carry a player's records.
use wc3env.Prelude.{
  ℕ, ◌+◌, ◌/◌, ◌%◌, ◌≤◌, ◌<◌, ◌≡◌, ◌⊎◌, inl, inr, refl, sym, ◌∙◌, ap, List, [], ◌∷◌, ◌++◌,
  if◌then◌else◌, ltb, length, length-append, All, arith, Bool-cases, ltb→lt, ltb→ge, lt→ltb, subst,
}
use wc3env.Act.{Bytes, ActQueue}
use mathlib.Core.List.{append_assoc, append-nil}

abbrev pub packet_bytes : ℕ
packet_bytes = 1000

-- The packets of the records, after `bytes` that are not sent yet.
pub pack : Bytes → List Bytes → List Bytes
pack bytes [] = if ltb 0 (length bytes) then bytes ∷ [] else []
pack bytes (r ∷ rs) =
    let alone = pack r rs in
    let joined = pack (bytes ++ r) rs in
    if ltb packet_bytes (length bytes + length r) then bytes ∷ alone else joined

-- The packets of one player's queue, and the queue without its records.
pub act_flush : ActQueue → List Bytes × ActQueue
act_flush q = (pack [] q.records, record q { records = [] })

-- The payload of a packet: no time, the player's wire id, the length and the records.
pub act_send_packet : ℕ → Bytes → Bytes
act_send_packet wire bytes =
    0 ∷ 0 ∷ wire % 256 ∷ length bytes % 256 ∷ length bytes / 256 % 256 ∷ bytes

abbrev pub concat : List Bytes → Bytes
concat [] = []
concat (b ∷ bs) = b ++ concat bs

-- A division of the records into packets, each of whole records.
pub data IsSplit : List Bytes → List Bytes → Type 0 where
  none_left : IsSplit [] []
  one_more :
      (group rest packets : List Bytes)
      → IsSplit rest packets
      → IsSplit (group ++ rest) (concat group ∷ packets)

concat-append : (xs ys : List Bytes) → concat (xs ++ ys) ≡ concat xs ++ concat ys
concat-append [] ys = refl
concat-append (x ∷ xs) ys =
    ap (λ zs. x ++ zs) (concat-append xs ys) ∙ sym (append_assoc x (concat xs) (concat ys))

-- Packets that each have bytes, and fit.
abbrev pub AllFit : List Bytes → Type 0
AllFit = All (λ p. (0 < length p) × (length p ≤ packet_bytes))

pack-AllFit :
    (bytes : Bytes) (rs : List Bytes)
    → All (λ r. (0 < length r) × (length r ≤ 48)) rs
    → length bytes ≤ packet_bytes
    → AllFit (pack bytes rs)
unfolding pack
pack-AllFit bytes [] f l = elim (Bool-cases (ltb 0 (length bytes))) [
  | inl b ↦ rw b ((ltb→lt _ _ b, l), tt)
  | inr b ↦ rw b tt
]
pack-AllFit bytes (r ∷ rs) f l = elim (Bool-cases (ltb packet_bytes (length bytes + length r))) [
  | inl b ↦
      rw b ((omega (arith, ltb→lt _ _ b, f.0.1), l), pack-AllFit r rs f.1 (omega (arith, f.0.1)))
  | inr b ↦
      rw b (pack-AllFit (bytes ++ r) rs f.1 (omega (arith, ltb→ge _ _ b, length-append bytes r)))
]

concat-snoc : (group : List Bytes) (r : Bytes) → concat (group ++ r ∷ []) ≡ concat group ++ r
concat-snoc group r = concat-append group (r ∷ []) ∙ ap (λ zs. concat group ++ zs) (append-nil r)

pack-IsSplit :
    (group rs : List Bytes)
    → (0 < length (concat group)) ⊎ (group ≡ [])
    → All (λ r. (0 < length r) × (length r ≤ 48)) rs
    → IsSplit (group ++ rs) (pack (concat group) rs)
unfolding pack
pack-IsSplit group [] (inl g) f =
    rw (lt→ltb 0 (length (concat group)) g) (one_more group [] [] none_left)
pack-IsSplit group [] (inr e) f =
    subst (λ group. IsSplit (group ++ []) (pack (concat group) [])) (sym e) none_left
pack-IsSplit group (r ∷ rs) g f =
    elim (Bool-cases (ltb packet_bytes (length (concat group) + length r))) [
      | inl b ↦ rw b (
          one_more group (r ∷ rs) (pack r rs) (
            subst (λ first. IsSplit (r ∷ rs) (pack first rs)) (append-nil r)
              (pack-IsSplit (r ∷ []) rs (inl (omega (arith, f.0.0, length-append r []))) f.1)))
      | inr b ↦
          rw (b, sym (concat-snoc group r), sym (append_assoc group (r ∷ []) rs))
            (pack-IsSplit (group ++ r ∷ []) rs
              (inl (
                omega
                  (arith, f.0.0, ap length (concat-snoc group r), length-append (concat group) r)))
              f.1)
    ]

IsSplit-concat :
    {records packets : List Bytes} → IsSplit records packets → concat packets ≡ concat records
IsSplit-concat none_left = refl
IsSplit-concat (one_more group rest packets s) =
    ap (λ zs. concat group ++ zs) (IsSplit-concat s) ∙ sym (concat-append group rest)

-- What a flush of these records promises of its packets.
pub record IsFlush (records packets : List Bytes) : Type 0 where
  pub split : IsSplit records packets
  pub bytes : concat packets ≡ concat records
  pub fit : AllFit packets

-- Of a queue whose records each have bytes, and at most 48 of them, a flush sends all the records,
-- in order and none of them across two packets, in packets that have bytes and at most 1000 of
-- them, and leaves the queue empty with its room.
pub act_flush-IsFlush :
    (q : ActQueue)
    → All (λ r. (0 < length r) × (length r ≤ 48)) q.records
    → IsFlush q.records (act_flush q).0
      × ((act_flush q).1.records ≡ [])
      × ((act_flush q).1.capacity ≡ q.capacity)
unfolding act_flush
act_flush-IsFlush q f =
    let s = pack-IsSplit [] q.records (inr refl) f in
    (
      record {
        split = s;
        bytes = IsSplit-concat s;
        fit = pack-AllFit [] q.records f (omega arith);
      },
      refl,
      refl,
    )

-- ===== src/Act.antt =====
-- wc3hook/act.c: the orders of an agent, from a job's items to the records of its player's queue, and
-- the packets that carry them. Objects, the game's answers about them, and `realloc` are arguments;
-- floats are their 32 bits, byte strings are lists, and `none` is an abort or a write out of bounds.
mod Encode
pub mod Game
mod Apply
mod Flush
mod Tests
use wc3env.Prelude.{
  ℕ, zero, suc, ◌+◌, ◌-◌, ◌*◌, ◌/◌, ◌%◌, ◌^◌, Bool, true, false, not, ◌&&◌, ◌||◌, Option, none,
  some, List, [], ◌∷◌, ◌++◌, if◌then◌else◌, ltb, leb, ◌==◌, length, ◌≤◌, ◌<◌, ◌≡◌, refl, arith,
  Bool-cases, ◌⊎◌, inl, inr,
}

abbrev pub Bytes : Type 0
Bytes = List ℕ

-- A player's records and the room for them.
pub record ActQueue : Type 0 where
  pub records : List Bytes
  pub capacity : ℕ

abbrev pub act_records : ℕ
act_records = 10

abbrev pub record_bytes : ℕ
record_bytes = 48

-- `realloc` answers whether there is memory for so many records of 49 bytes; `size_t` has 32 bits.
pub act_reserve : (ℕ → Bool) → ActQueue → Bool × ActQueue
act_reserve realloc q =
    if leb act_records (q.capacity - length q.records)
    then (true, q)
    else if ltb ((2 ^ 32 - 1) / 49 / 2) q.capacity
    then (false, q)
    else let capacity = if q.capacity == 0 then act_records else q.capacity * 2 in
      if realloc capacity then (true, record q { capacity = capacity }) else (false, q)

pub act_enqueue : Bytes → ActQueue → Option ActQueue
act_enqueue bytes q =
    if ltb record_bytes (length bytes) || leb q.capacity (length q.records)
    then none
    else some (record q { records = q.records ++ bytes ∷ [] })

pub enqueue_all : List Bytes → ActQueue → Option ActQueue
enqueue_all [] q = some q
enqueue_all (b ∷ bs) q = elim (act_enqueue b q) [ none ↦ none | some r ↦ enqueue_all bs r ]

pub enqueue_all-cons :
    (b : Bytes) (bs : List Bytes) (q : ActQueue)
    → length b ≤ record_bytes
    → length q.records < q.capacity
    → enqueue_all (b ∷ bs) q ≡ enqueue_all bs (record q { records = q.records ++ b ∷ [] })
unfolding enqueue_all act_enqueue
enqueue_all-cons b bs q f h = ground arith

pub enqueue_all-nil : (q : ActQueue) → enqueue_all [] q ≡ some q
unfolding enqueue_all
enqueue_all-nil q = refl

-- The room is none or at least that of one order, and holds the records; it has fewer than 2 ^ 32
-- bytes.
pub record IsQueue (q : ActQueue) : Type 0 where
  pub room : (q.capacity ≡ 0) ⊎ (act_records ≤ q.capacity)
  pub within : length q.records ≤ q.capacity
  pub sized : q.capacity * 49 < 2 ^ 32

-- What reserving answers: a queue that stands, with the same records, and on success room for an order.
pub record IsReserved (q : ActQueue) (r : Bool × ActQueue) : Type 0 where
  pub queue : IsQueue r.1
  pub records : r.1.records ≡ q.records
  pub free : (r.0 ≡ false) ⊎ (length q.records + act_records ≤ r.1.capacity)

pub act_reserve-IsReserved :
    (realloc : ℕ → Bool) (q : ActQueue) → IsQueue q → IsReserved q (act_reserve realloc q)
unfolding act_reserve
act_reserve-IsReserved realloc q h =
    elim (Bool-cases (leb act_records (q.capacity - length q.records))) [
      | inl e ↦ rw e (record { queue = h; records = refl; free = inr (ground arith) })
      | inr e ↦ elim (Bool-cases (ltb 43826196 q.capacity)) [
        | inl f ↦ rw (e, f) (record { queue = h; records = refl; free = inl refl })
        | inr f ↦
            elim (Bool-cases (realloc (if q.capacity == 0 then act_records else q.capacity * 2))) [
              | inl m ↦
                  rw (e, f, m)
                    (record {
                      queue = record {
                        room = ground (arith, h.room);
                        within = ground (arith, h.room, h.within);
                        sized = ground (arith, h.room);
                      };
                      records = refl;
                      free = inr (ground (arith, h.room, h.within));
                    })
              | inr m ↦ rw (e, f, m) (record { queue = h; records = refl; free = inl refl })
            ]
      ]
    ]

pub act_reserve-records :
    (realloc : ℕ → Bool) (q : ActQueue) → (act_reserve realloc q).1.records ≡ q.records
unfolding act_reserve
act_reserve-records realloc q = ground arith

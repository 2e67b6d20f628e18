-- ===== src/Clock/Seqlock.antt =====
-- wc3hook/clock.c: `anchor_read` beside `anchor_write`, as interleaved steps of one writer (writers
-- hold `g_clock_lock`) and one reader. An anchor is five fields, copied one by one; the barriers
-- keep the copies between the accesses to `g_anchor_seq`. `seq` counts the increments of
-- `g_anchor_seq`; the LONG itself, which is what the reader compares, is the count modulo 2 ^ 32.
use wc3env.Prelude.{
  ℕ, ◌+◌, ◌*◌, ◌%◌, ◌^◌, ◌≤◌, ◌<◌, ◌≡◌, refl, inl, inr, Bool, true, false, arith, if◌then◌else◌,
  ◌==◌, Bool-cases, ==→eq, ==→ne,
}

abbrev pub fields : ℕ
fields = 5

module _ {ℓ} {V : Type ℓ} where
  abbrev pub update : (ℕ → V) → ℕ → V → ℕ → V
  update f i v j = if i == j then v else f j

-- `content v i` is field `i` of the anchor that the `v`-th write publishes.
module _ {V : Type 0} (content : ℕ → ℕ → V) where
  pub record Shared : Type 0 where
    pub seq : ℕ
    pub version : ℕ
    pub writing : Bool
    pub written : ℕ
    pub mem : ℕ → V
    pub reading : Bool
    pub first_seq : ℕ
    pub copied : ℕ
    pub copy : ℕ → V

  pub data Step : Shared → Shared → Type 0 where
    write_begin :
        (s : Shared)
        → s.writing ≡ false
        → Step s (record s { seq = s.seq + 1; writing = true; written = 0 })
    write_field :
        (s : Shared)
        → s.writing ≡ true
        → s.written < fields
        → Step s (record s {
          mem = update s.mem s.written (content (s.version + 1) s.written);
          written = s.written + 1;
        })
    write_end :
        (s : Shared)
        → s.writing ≡ true
        → s.written ≡ fields
        → Step s (record s { seq = s.seq + 1; version = s.version + 1; writing = false })
    read_begin : (s : Shared) → Step s (record s { reading = true; first_seq = s.seq; copied = 0 })
    read_field :
        (s : Shared)
        → s.reading ≡ true
        → s.copied < fields
        → Step s
            (record s { copy = update s.copy s.copied (s.mem s.copied); copied = s.copied + 1 })

  pub data Reach (s : Shared) : Shared → Type 0 where
    here : Reach s s
    next : {t u : Shared} → Reach s t → Step t u → Reach s u

  -- The loop's exit: all fields are copied, and the second reading of the word is the first, even.
  pub record IsAccepted (s : Shared) : Type 0 where
    pub reading : s.reading ≡ true
    pub complete : s.copied ≡ fields
    pub even : s.first_seq % 2 ^ 32 % 2 ≡ 0
    pub unchanged : s.first_seq % 2 ^ 32 ≡ s.seq % 2 ^ 32

  -- Between writes, the memory holds the last published anchor.
  pub record IsConsistent (s : Shared) : Type 0 where
    pub idle : s.writing ≡ false → s.seq ≡ 2 * s.version
    pub busy : s.writing ≡ true → s.seq ≡ 2 * s.version + 1
    pub whole : s.writing ≡ false → (i : ℕ) → i < fields → s.mem i ≡ content s.version i
    pub done :
        s.writing ≡ true
        → (i : ℕ) → i < s.written
        → i < fields
        → s.mem i ≡ content (s.version + 1) i
    pub not_back : s.first_seq ≤ s.seq
    pub copies :
        s.first_seq ≡ s.seq
        → s.first_seq % 2 ≡ 0
        → (i : ℕ) → i < s.copied
        → i < fields
        → s.copy i ≡ content s.version i

  Step-IsConsistent : {s t : Shared} → Step s t → IsConsistent s → IsConsistent t
  Step-IsConsistent (write_begin s e) c = record {
    idle = λ h. cc;
    busy = λ h. omega (arith, c.idle e);
    whole = λ h. cc;
    done = λ h i p q. absurd (omega arith);
    not_back = omega (arith, c.not_back);
    copies = λ h. absurd (omega (arith, c.not_back, h));
  }
  Step-IsConsistent (write_field s e l) c = record {
    idle = λ h. c.idle h;
    busy = λ h. c.busy h;
    whole = λ h. cc;
    done = λ h i p q. ground (arith, c.done e i);
    not_back = c.not_back;
    copies = λ h v. c.copies h v;
  }
  Step-IsConsistent (write_end s e l) c = record {
    idle = λ h. omega (arith, c.busy e);
    busy = λ h. cc;
    whole = λ h i q. c.done e i (omega arith) q;
    done = λ h. cc;
    not_back = omega (arith, c.not_back);
    copies = λ h. absurd (omega (arith, c.not_back, h));
  }
  Step-IsConsistent (read_begin s) c = record {
    idle = c.idle;
    busy = c.busy;
    whole = c.whole;
    done = c.done;
    not_back = omega arith;
    copies = λ h v i p q. absurd (omega arith);
  }
  Step-IsConsistent (read_field s e l) c = record {
    idle = c.idle;
    busy = c.busy;
    whole = c.whole;
    done = c.done;
    not_back = c.not_back;
    copies = λ h v i p q. elim (Bool-cases s.writing) [
      | inl w ↦ absurd (omega (arith, c.busy w))
      | inr w ↦ elim (Bool-cases (s.copied == i)) [
        | inl hit ↦ rw (hit, ==→eq _ _ hit) (c.whole w i q)
        | inr miss ↦ rw miss (c.copies h v i (omega (arith, ==→ne _ _ miss)) q)
      ]
    ];
  }

  Reach-IsConsistent : {s t : Shared} → IsConsistent s → Reach s t → IsConsistent t
  Reach-IsConsistent c here = c
  Reach-IsConsistent c (next r st) = Step-IsConsistent st (Reach-IsConsistent c r)

  -- A memory that holds a published anchor, with nobody at work.
  abbrev pub quiet : ℕ → Shared
  quiet v = record {
    seq = 2 * v;
    version = v;
    writing = false;
    written = 0;
    mem = content v;
    reading = false;
    first_seq = 0;
    copied = 0;
    copy = content 0;
  }

  quiet-IsConsistent : (v : ℕ) → IsConsistent (quiet v)
  quiet-IsConsistent v = record {
    idle = λ h. refl;
    busy = λ h. cc;
    whole = λ h i q. refl;
    done = λ h. cc;
    not_back = omega arith;
    copies = λ h w i p q. absurd (omega arith);
  }

  -- However its steps fall between those of the writer, what a reader accepts is one published
  -- anchor, whole: the one whose write was the last to end when the reader looked. The sequence number,
  -- a word of 32 bits, has not come round since the reader's first look: fewer than 2 ^ 31 writes.
  pub accepted-whole :
      {t : Shared} (v : ℕ)
      → Reach (quiet v) t
      → IsAccepted t
      → t.seq < t.first_seq + 2 ^ 32
      → (i : ℕ) → i < fields
      → (t.seq ≡ 2 * t.version) × (t.copy i ≡ content t.version i)
  accepted-whole {t = t} v r a near i h =
      let d = Reach-IsConsistent (quiet-IsConsistent v) r in
      let same : t.first_seq ≡ t.seq = omega (arith, d.not_back, a.unchanged, near) in
      let even : t.first_seq % 2 ≡ 0 = omega (arith, a.even) in
      elim (Bool-cases t.writing) [
        | inl w ↦ absurd (omega (arith, d.busy w, even, same))
        | inr w ↦ (d.idle w, d.copies same even i (omega (arith, a.complete)) h)
      ]

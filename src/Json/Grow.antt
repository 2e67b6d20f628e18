-- ===== src/Json/Grow.antt =====
-- wc3hook/json.h: the memory of a writer, and that each write has room in it.
use wc3env.Prelude.{
  ℕ, zero, suc, ◌+◌, ◌*◌, ◌%◌, ◌^◌, ◌≤◌, ◌<◌, ◌≡◌, refl, inl, inr, Bool, false, Option, none, some,
  [], if◌then◌else◌, ltb, leb, ◌==◌, length, arith, Bool-cases, leb→le, leb→gt, ltb→ge, ge→ltb,
  ne→==,
}
use wc3env.Json.{Bytes, Writer, Outcome, done, aborted, hang, ◌>>=◌, doubled, jw_grow}

-- A size that `j` doublings bring to 2 ^ 31.
abbrev pub IsSize : ℕ → ℕ → Type 0
IsSize zero cap = cap ≡ 2 ^ 31
IsSize (suc j) cap = IsSize j (cap * 2)

pub IsSize-le : (j cap : ℕ) → IsSize j cap → cap ≤ 2 ^ 31
IsSize-le zero cap s = omega (arith, s)
IsSize-le (suc j) cap s = omega (arith, IsSize-le j (cap * 2) s)

IsSize-pos : (j cap : ℕ) → IsSize j cap → 0 < cap
IsSize-pos zero cap s = omega (arith, s)
IsSize-pos (suc j) cap s = omega (arith, IsSize-pos j (cap * 2) s)

-- The invariant of a writer: no memory and no text, or memory of a power of two with a place left for
-- the zero.
pub data IsWriter (w : Writer) : Type 0 where
  fresh : w.cap ≡ 0 → w.text ≡ [] → IsWriter w
  held : (j : ℕ) → j ≤ 15 → IsSize j w.cap → length w.text < w.cap → IsWriter w

-- The text and the comma that a write leaves in a writer that is as it should be, unless memory is
-- refused: it never leaves its memory and it always ends.
pub data Writes (granted : ℕ → Bool) (text : Bytes) (comma : Bool) : Outcome → Type 0 where
  writes :
      (w : Writer)
      → w.text ≡ text
      → w.comma ≡ comma
      → IsWriter w
      → Writes granted text comma (done w)
  refused : (size : ℕ) → granted size ≡ false → Writes granted text comma aborted

pub >>=-Writes :
    {granted : ℕ → Bool} {t t' : Bytes} {c c' : Bool} {o : Outcome} (f : Writer → Outcome)
    → Writes granted t c o
    → ((w : Writer) → w.text ≡ t → w.comma ≡ c → IsWriter w → Writes granted t' c' (f w))
    → Writes granted t' c' (o >>= f)
unfolding ◌>>=◌
>>=-Writes f (writes w e ec i) k = k w e ec i
>>=-Writes f (refused n e) k = refused n e

-- What the loop of `jw_grow` returns.
data IsGrown (want : ℕ) : Option ℕ → Type 0 where
  grown : (cap j : ℕ) → j ≤ 15 → IsSize j cap → want ≤ cap → IsGrown want (some cap)

doubled-IsGrown :
    (fuel cap want j : ℕ)
    → j < fuel
    → j ≤ 15
    → IsSize j cap
    → want ≤ 2 ^ 31
    → IsGrown want (doubled fuel cap want)
unfolding doubled
doubled-IsGrown zero cap want j hf hj s h = absurd (omega arith)
doubled-IsGrown (suc fuel) cap want zero hf hj s h =
    rw (ge→ltb cap want (omega (arith, s))) (grown cap 0 hj s (omega (arith, s)))
doubled-IsGrown (suc fuel) cap want (suc j) hf hj s h = elim (Bool-cases (ltb cap want)) [
  | inl e ↦ rw (e, small) (doubled-IsGrown fuel (cap * 2) want j (omega arith) (omega arith) s h)
  | inr e ↦ rw e (grown cap (suc j) hj s (ltb→ge cap want e))
]
  where
    small : cap * 2 % 2 ^ 32 ≡ cap * 2
    small = omega (arith, IsSize-le j (cap * 2) s)

-- What `jw_grow` returns: the writer with room for `room` bytes and a zero.
pub data Grows (granted : ℕ → Bool) (w : Writer) (room : ℕ) : Outcome → Type 0 where
  grows :
      (cap : ℕ)
      → IsWriter (record w { cap = cap })
      → length w.text + room < cap
      → Grows granted w room (done (record w { cap = cap }))
  denied : (size : ℕ) → granted size ≡ false → Grows granted w room aborted

module _ (granted : ℕ → Bool) where
  give :
      (w : Writer) (need : ℕ) (o : Option ℕ)
      → IsGrown (length w.text + need + 1) o
      → Grows granted w need (elim o [
        | none ↦ hang
        | some cap ↦ if granted cap then done (record w { cap = cap }) else aborted
      ])
  give w need _ (grown cap j hj s h) = elim (Bool-cases (granted cap)) [
    | inl e ↦ rw e (grows cap (held j hj s (omega arith)) (omega arith))
    | inr e ↦ rw e (denied cap e)
  ]

  IsGrown-from :
      (w : Writer) (want : ℕ)
      → IsWriter w
      → want ≤ 2 ^ 31
      → leb want w.cap ≡ false
      → IsGrown want (doubled 33 (if w.cap == 0 then 2 ^ 16 else w.cap * 2 % 2 ^ 32) want)
  IsGrown-from w want (fresh e et) h hn =
      rw e (doubled-IsGrown 33 (2 ^ 16) want 15 (omega arith) (omega arith) refl h)
  IsGrown-from w want (held zero hj s hl) h hn = absurd (omega (arith, s, leb→gt want w.cap hn))
  IsGrown-from w want (held (suc j) hj s hl) h hn =
      rw (ne→== w.cap 0 (omega (arith, IsSize-pos (suc j) w.cap s)), small)
        (doubled-IsGrown 33 (w.cap * 2) want j (omega arith) (omega arith) s h)
    where
      small : w.cap * 2 % 2 ^ 32 ≡ w.cap * 2
      small = omega (arith, IsSize-le j (w.cap * 2) s)

  pub jw_grow-Grows :
      (w : Writer) (need : ℕ)
      → IsWriter w
      → length w.text + need < 2 ^ 31
      → Grows granted w need (jw_grow granted need w)
  unfolding jw_grow
  jw_grow-Grows w need i h = elim (Bool-cases (leb (length w.text + need + 1) w.cap)) [
    | inl e ↦ rw (small, e) (grows w.cap i (omega (arith, leb→le _ _ e)))
    | inr e ↦ rw (small, e) (give w need _ (IsGrown-from w _ i (omega arith) e))
  ]
    where
      small : (length w.text + need + 1) % 2 ^ 32 ≡ length w.text + need + 1
      small = omega arith

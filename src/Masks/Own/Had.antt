-- ===== src/Masks/Own/Had.antt =====
-- wc3hook/masks.c: the types that count as had, and the measure of the loop that finds them.
use mathlib.Core.List.{Memᴰ}
use wc3env.Prelude.{
  ℕ, zero, suc, ◌≤◌, ◌<◌, ◌≡◌, inl, inr, refl, sym, ap, ◌∙◌, true, false, List, [], ◌∷◌,
  if◌then◌else◌, ◌==◌, ==→eq, ==→ne, arith, Bool-cases,
}
use wc3env.Features.{Map}
use wc3env.Features.Sets.{has}
use wc3env.Masks.{Reference, items}
use wc3env.Masks.Own.{any_had}

-- What counts as had: what is done, and what upgrades into a type that is had.
pub data Had (r : Reference) (done : Map ℕ) : ℕ → Type 0 where
  is_done : {id : ℕ} → has done id ≡ true → Had r done id
  becomes_had :
      {id : ℕ} (k x : ℕ)
      → k < r.units_n
      → (r.unit k).id ≡ id
      → Memᴰ x (items r (r.unit k).upgrades_to)
      → Had r done x
      → Had r done id

pub any_had-Mem :
    (r : Reference) (m : Map ℕ) (ks : List ℕ)
    → any_had r m ks ≡ true
    → (x : ℕ) × Memᴰ x ks × (has m x ≡ true)
unfolding any_had
any_had-Mem r m [] h = absurd (ground arith)
any_had-Mem r m (k ∷ ks) h = elim (Bool-cases (has m k)) [
  | inl q ↦ (k, Memᴰ.head refl, q)
  | inr q ↦ let (x, e, p) = any_had-Mem r m ks (rw q at h) in (x, Memᴰ.tail e, p)
]

pub Mem-any_had :
    (r : Reference) (m : Map ℕ) (x : ℕ) (ks : List ℕ)
    → Memᴰ x ks
    → has m x ≡ true
    → any_had r m ks ≡ true
unfolding any_had
Mem-any_had r m x [] e h = elim e [ ]
Mem-any_had r m x (k ∷ ks) (Memᴰ.head e) h = rw (ap (has m) (sym e) ∙ h) refl
Mem-any_had r m x (k ∷ ks) (Memᴰ.tail e) h = elim (Bool-cases (has m k)) [
  | inl q ↦ rw q refl
  | inr q ↦ rw q (Mem-any_had r m x ks e h)
]

-- The types of the table that are not in the set.
pub missing : Reference → ℕ → Map ℕ → ℕ
missing r zero m = 0
missing r (suc n) m = if has m (r.unit n).id then missing r n m else suc (missing r n m)

pub missing-le : (r : Reference) (n : ℕ) (m : Map ℕ) → missing r n m ≤ n
unfolding missing
missing-le r zero m = omega arith
missing-le r (suc n) m = ground (arith, missing-le r n m)

abbrev pub Within : Map ℕ → Map ℕ → Type 0
Within m m' = (x : ℕ) → has m x ≡ true → has m' x ≡ true

pub missing_mono :
    (r : Reference) (n : ℕ) (m m' : Map ℕ) → Within m m' → missing r n m' ≤ missing r n m
unfolding missing
missing_mono r zero m m' h = omega arith
missing_mono r (suc n) m m' h = ground (arith, missing_mono r n m m' h, h (r.unit n).id)

pub missing_falls :
    (r : Reference) (n k : ℕ) (m m' : Map ℕ)
    → Within m m'
    → k < n
    → has m (r.unit k).id ≡ false
    → has m' (r.unit k).id ≡ true
    → missing r n m' < missing r n m
unfolding missing
missing_falls r zero k m m' h l p q = absurd (omega arith)
missing_falls r (suc n) k m m' h l p q = elim (Bool-cases (n == k)) [
  | inl e ↦ rw (ap (λ k. has m (r.unit k).id) (==→eq n k e) ∙ p) (
      rw (ap (λ k. has m' (r.unit k).id) (==→eq n k e) ∙ q)
        (omega (arith, missing_mono r n m m' h)))
  | inr e ↦
      ground (arith, h (r.unit n).id, missing_falls r n k m m' h (omega (arith, ==→ne n k e)) p q)
]

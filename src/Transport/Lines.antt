-- ===== src/Transport/Lines.antt =====
-- wc3hook/transport.c: the lines of a text, and of a text cut in two.
use wc3env.Prelude.{
  ℕ, zero, suc, ◌≤◌, ◌<◌, ◌≡◌, ◌≢◌, refl, sym, ap, ◌∙◌, inl, inr, true, false, Option, none, some,
  List, [], ◌∷◌, ◌++◌, if◌then◌else◌, ◌==◌, length, take, drop, All, arith, map, Bool-cases, ne→==,
}
use wc3env.Json.{Bytes, c_string}
use wc3env.Transport.{and_before, strchr, strip, take_lines, newline}

abbrev begin : ℕ → List Bytes × Bytes → List Bytes × Bytes
begin c ([], left) = ([], c ∷ left)
begin c (line ∷ lines, left) = ((c ∷ line) ∷ lines, left)

-- The lines of a text, each of which a newline ends, and what follows the last of them.
unfoldable pub split : Bytes → List Bytes × Bytes
split [] = ([], [])
split (c ∷ s) =
    let rest = split s in
    let within = begin c rest in if c == newline then ([] ∷ rest.0, rest.1) else within

split_within : (c : ℕ) (s : Bytes) → (c == newline) ≡ false → split (c ∷ s) ≡ begin c (split s)
unfolding split
split_within c s e = rw (split, e) refl

split_newline :
    (c : ℕ) (s : Bytes) → (c == newline) ≡ true → split (c ∷ s) ≡ ([] ∷ (split s).0, (split s).1)
unfolding split
split_newline c s e = rw (split, e) refl

-- A text without zeros.
abbrev pub IsText : Bytes → Type 0
IsText s = All (λ c. c ≢ 0) s

-- What `strchr` finds in a text.
data IsCut (s : Bytes) : Option (Bytes × Bytes) → Type 0 where
  whole : split s ≡ ([], s) → IsCut s none
  cut :
      (line after : Bytes)
      → split s ≡ (line ∷ (split after).0, (split after).1)
      → IsText after
      → length after < length s
      → IsCut s (some (line, after))

c_string-IsText : (s : Bytes) → IsText s → c_string s ≡ s
unfolding c_string
c_string-IsText [] h = refl
c_string-IsText (c ∷ s) (h, hs) = rw (ne→== c 0 h) (ap (λ t. c ∷ t) (c_string-IsText s hs))

longer :
    (c : ℕ) (s : Bytes)
    → (c == newline) ≡ false
    → (o : Option (Bytes × Bytes)) → IsCut s o
    → IsCut (c ∷ s) (and_before c o)
longer c s n _ (whole e) = whole (split_within c s n ∙ ap (begin c) e)
longer c s n _ (cut line after e ha hl) =
    cut (c ∷ line) after (split_within c s n ∙ ap (begin c) e) ha (omega arith)

strchr-IsCut : (s : Bytes) → IsText s → IsCut s (strchr newline s)
unfolding strchr split
strchr-IsCut [] h = whole refl
strchr-IsCut (c ∷ s) (h, hs) = rw (ne→== c 0 h) (elim (Bool-cases (c == newline)) [
  | inl e ↦ rw e (cut [] s (rw e refl) hs (omega arith))
  | inr e ↦ rw e (longer c s e (strchr newline s) (strchr-IsCut s hs))
])

one_line :
    (fuel : ℕ) (s : Bytes) (o : Option (Bytes × Bytes))
    → IsCut s o
    → IsText s
    → ((after : Bytes)
        → IsText after
        → length after < length s
        → take_lines fuel after ≡ some (map strip (split after).0, (split after).1))
    → elim o as (λ o. Option (List Bytes × Bytes)) [
      | none ↦ some ([], c_string s)
      | some (line, after) ↦ elim (take_lines fuel after) [
        | none ↦ none
        | some (lines, left) ↦ some (strip line ∷ lines, left)
      ]
    ]
      ≡ some (map strip (split s).0, (split s).1)
one_line fuel s _ (whole e) h k = rw (e, c_string-IsText s h) refl
one_line fuel s _ (cut line after e ha hl) h k = rw (e, k after ha hl) refl

-- Enough fuel for the lines of a text.
pub take_lines-split :
    (fuel : ℕ) (s : Bytes)
    → length s < fuel
    → IsText s
    → take_lines fuel s ≡ some (map strip (split s).0, (split s).1)
unfolding take_lines
take_lines-split zero s hf h = absurd (omega arith)
take_lines-split (suc fuel) s hf h =
    one_line fuel s (strchr newline s) (strchr-IsCut s h) h
      λ after ha hl. take_lines-split fuel after (omega arith) ha

abbrev join : Bytes → List Bytes × Bytes → List Bytes × Bytes
join x p = (p.0 ++ (split (p.1 ++ x)).0, (split (p.1 ++ x)).1)

begin-join :
    (c : ℕ) (x : Bytes) (p : List Bytes × Bytes)
    → (c == newline) ≡ false
    → begin c (join x p) ≡ join x (begin c p)
begin-join c x ([], left) e = sym (split_within c (left ++ x) e)
begin-join c x (line ∷ lines, left) e = refl

-- A text cut in two: the lines of the first part, then those of what it leaves and the second.
pub split-append : (u x : Bytes) → split (u ++ x) ≡ join x (split u)
unfolding split
split-append [] x = refl
split-append (c ∷ u) x = elim (Bool-cases (c == newline)) [
  | inl e ↦ rw (split_newline c (u ++ x) e, split_newline c u e, split-append u x) refl
  | inr e ↦
      split_within c (u ++ x) e
      ∙ ap (begin c) (split-append u x)
      ∙ begin-join c x (split u) e
      ∙ sym (ap (join x) (split_within c u e))
]

pub split_left-IsText : (s : Bytes) → IsText s → IsText (split s).1
unfolding split
split_left-IsText [] h = tt
split_left-IsText (c ∷ s) (h, hs) = elim (Bool-cases (c == newline)) [
  | inl e ↦ rw e (split_left-IsText s hs)
  | inr e ↦ rw e (begun (split s) (split_left-IsText s hs))
]
  where
    begun : (p : List Bytes × Bytes) → IsText p.1 → IsText (begin c p).1
    begun ([], left) i = (h, i)
    begun (line ∷ lines, left) i = i

-- What the last line leaves has no newline.
pub split-left : (s : Bytes) → split (split s).1 ≡ ([], (split s).1)
unfolding split
split-left [] = refl
split-left (c ∷ s) = elim (Bool-cases (c == newline)) [
  | inl e ↦ rw e (split-left s)
  | inr e ↦ rw e (begun e (split s) (split-left s))
]
  where
    begun :
        (c == newline) ≡ false
        → (p : List Bytes × Bytes) → split p.1 ≡ ([], p.1)
        → split (begin c p).1 ≡ ([], (begin c p).1)
    begun e ([], left) i = rw (split_within c left e, i) refl
    begun e (line ∷ lines, left) i = i

pub take-drop {ℓ} : {A : Type ℓ} (n : ℕ) (xs : List A) → take n xs ++ drop n xs ≡ xs
take-drop zero xs = refl
take-drop (suc n) [] = refl
take-drop (suc n) (x ∷ xs) = ap (λ t. x ∷ t) (take-drop n xs)

pub length-take_le {ℓ} : {A : Type ℓ} (n : ℕ) (xs : List A) → length (take n xs) ≤ n
length-take_le zero xs = omega arith
length-take_le (suc n) [] = omega arith
length-take_le (suc n) (x ∷ xs) = omega (arith, length-take_le n xs)

pub All-left {ℓ κ} : {A : Type ℓ} (P : A → Type κ) (xs ys : List A) → All P (xs ++ ys) → All P xs
All-left P [] ys h = tt
All-left P (x ∷ xs) ys (h, hs) = (h, All-left P xs ys hs)

pub All-right {ℓ κ} : {A : Type ℓ} (P : A → Type κ) (xs ys : List A) → All P (xs ++ ys) → All P ys
All-right P [] ys h = h
All-right P (x ∷ xs) ys (h, hs) = All-right P xs ys hs

abbrev pub first_piece : List Bytes × Bytes → Bytes
first_piece ([], left) = left
first_piece (line ∷ lines, left) = line

pub All-first_piece {κ} :
    (P : Bytes → Type κ) (p : List Bytes × Bytes) → All P (p.0 ++ (p.1 ∷ [])) → P (first_piece p)
All-first_piece P ([], left) h = h.0
All-first_piece P (line ∷ lines, left) h = h.0

begin_none : (c : ℕ) (u : Bytes) (p : List Bytes × Bytes) → begin c p ≡ ([], c ∷ u) → p ≡ ([], u)
begin_none c u ([], left) e = ap (λ q. ([], drop 1 q.1)) e
begin_none c u (line ∷ lines, left) e = absurd (nonempty (ap (λ q. length q.0) e))
  where
    nonempty : suc (length lines) ≡ 0 → ⊥
    nonempty h = omega (arith, h)

length-begin :
    (c : ℕ) (p : List Bytes × Bytes)
    → length (first_piece (begin c p)) ≡ suc (length (first_piece p))
length-begin c ([], left) = refl
length-begin c (line ∷ lines, left) = refl

-- An unfinished line is at the front of the first piece, whatever follows.
pub length-first_piece :
    (u x : Bytes) → split u ≡ ([], u) → length u ≤ length (first_piece (split (u ++ x)))
length-first_piece [] x e = omega arith
length-first_piece (c ∷ u) x e = elim (Bool-cases (c == newline)) [
  | inl n ↦ absurd (no_line (ap (λ p. length p.0) (sym (split_newline c u n) ∙ e)))
  | inr n ↦
      rw (split_within c (u ++ x) n, length-begin c (split (u ++ x)))
        (omega
          (arith, length-first_piece u x (begin_none c u (split u) (sym (split_within c u n) ∙ e))))
]
  where
    no_line : suc (length (split u).0) ≡ 0 → ⊥
    no_line h = omega (arith, h)

-- ===== src/Features/Sets.antt =====
-- wc3hook/features_obs.h: the open-addressing map as a set: the test `map_get(m, key, NULL)` and the
-- loop over the places that are used.
use mathlib.Core.List.{Memᴰ}
use mathlib.Core.List.Memᴰ
use wc3env.Prelude.{
  ℕ, zero, suc, ◌+◌, ◌-◌, ◌≤◌, ◌<◌, ◌≡◌, ◌≢◌, ◌⊎◌, ◌↔◌, inl, inr, refl, sym, ap, subst, ◌∙◌, Bool,
  true, false, ◌||◌, Option, none, some, List, [], ◌∷◌, ◌==◌, ==→eq, ==→ne, arith, Bool-cases,
}
use wc3env.Features.{Map, map_init, map_get, map_put, map_slot, free_or_key}
use wc3env.Features.Table.{is_map, map_slot-Stop}
use wc3env.Features.Stored.{map_get-at, value}
use wc3env.Features.Growth.{IsTable, is_table, IsUpdate, is_update, map_put-IsUpdate}

module _ {V : Type 0} where
  abbrev pub given : Option V → Bool
  given none = false
  given (some v) = true

  -- `map_get(m, key, NULL)`.
  unfoldable pub has : Map V → ℕ → Bool
  has m k = given (map_get m k)

  abbrev pub take_key : Option (ℕ × V) → List ℕ → List ℕ
  take_key none rest = rest
  take_key (some e) rest = e.0 ∷ rest

  -- The keys at the last `left` places.
  pub keys_from : ℕ → Map V → List ℕ
  keys_from zero m = []
  keys_from (suc left) m = take_key (m.places (m.cap - suc left)) (keys_from left m)

  -- The keys, in the order of their places.
  unfoldable pub keys : Map V → List ℕ
  unfolding keys_from
  keys m = keys_from m.cap m

  Mem-take_key :
      (k : ℕ) (o : Option (ℕ × V)) (rest : List ℕ)
      → Memᴰ k (take_key o rest)
      → ((v : V) × (o ≡ some (k, v))) ⊎ Memᴰ k rest
  Mem-take_key k none rest h = inr h
  Mem-take_key k (some (j, v)) rest h = elim (Memᴰ.cases_cons h) [
    | inl e ↦ inl (v, ap (λ j. some (j, v)) (sym e))
    | inr r ↦ inr r
  ]

  take_key-there :
      (k : ℕ) (o : Option (ℕ × V)) (rest : List ℕ) → Memᴰ k rest → Memᴰ k (take_key o rest)
  take_key-there k none rest h = h
  take_key-there k (some e) rest h = Memᴰ.tail h

  -- Where a key of the list stands.
  abbrev At : Map V → ℕ → Type 0
  At m k = (i : ℕ) × (v : V) × (i < m.cap) × (m.places i ≡ some (k, v))

  keys_from-At : (left : ℕ) (m : Map V) (k : ℕ) → left ≤ m.cap → Memᴰ k (keys_from left m) → At m k
  unfolding keys_from
  keys_from-At zero m k h e = elim e [ ]
  keys_from-At (suc left) m k h e =
      elim (Mem-take_key k (m.places (m.cap - suc left)) (keys_from left m) e) [
        | inl (v, p) ↦ (m.cap - suc left, v, omega arith, p)
        | inr r ↦ keys_from-At left m k (omega arith) r
      ]

  Mem-keys_from :
      (left : ℕ) (m : Map V) (k i : ℕ) (v : V)
      → i < m.cap
      → m.cap ≤ i + left
      → m.places i ≡ some (k, v)
      → Memᴰ k (keys_from left m)
  unfolding keys_from
  Mem-keys_from zero m k i v hi h e = absurd (omega arith)
  Mem-keys_from (suc left) m k i v hi h e = elim (Bool-cases (m.cap - suc left == i)) [
    | inl q ↦
        subst (λ o. Memᴰ k (take_key o (keys_from left m))) (sym (ap m.places (==→eq _ i q) ∙ e))
          (Memᴰ.head refl)
    | inr q ↦ take_key-there k _ _ (Mem-keys_from left m k i v hi (omega (arith, ==→ne _ i q)) e)
  ]

  -- A table's keys are those that are found in it.
  pub Mem-keys : (m : Map V) (k : ℕ) → IsTable m → Memᴰ k (keys m) ↔ (has m k ≡ true)
  unfolding has keys
  Mem-keys m k (is_table (is_map hc count found) h hn) = (to, from)
    where
      to : Memᴰ k (keys_from m.cap m) → given (map_get m k) ≡ true
      to e =
          let (i, v, hi, p) = keys_from-At m.cap m k (omega arith) e in
          ap given (map_get-at m k i (found i k v hi p) ∙ ap value p)

      at_slot :
          (o : Option (ℕ × V))
          → m.places (map_slot m k) ≡ o
          → free_or_key o k ≡ true
          → given (value o) ≡ true
          → Memᴰ k (keys_from m.cap m)
      at_slot none p f g = absurd (ground arith)
      at_slot (some (j, v)) p f g =
          Mem-keys_from m.cap m k (map_slot m k) v
            (map_slot-Stop m k hc (omega (arith, count, hn, h))).1 (omega arith)
            (p ∙ ap (λ j. some (j, v)) (==→eq j k f))

      from : given (map_get m k) ≡ true → Memᴰ k (keys_from m.cap m)
      from g =
          at_slot _ refl (map_slot-Stop m k hc (omega (arith, count, hn, h))).0
            (sym (ap given (map_get-at m k _ refl)) ∙ g)

  pub has-put :
      (m : Map V) (key j : ℕ) (v : V) → IsTable m → has (map_put key v m) j ≡ (key == j || has m j)
  unfolding has
  has-put m key j v t = of_update (map_put-IsUpdate m key v t)
    where
      of_update :
          IsUpdate m key v (map_put key v m)
          → given (map_get (map_put key v m) j) ≡ (key == j || given (map_get m j))
      of_update (is_update u same other) = elim (Bool-cases (key == j)) [
        | inl q ↦ rw q (ap given (ap (map_get (map_put key v m)) (sym (==→eq key j q)) ∙ same))
        | inr q ↦ rw q (ap given (other j (==→ne key j q)))
      ]

  pub put-IsTable : (m : Map V) (key : ℕ) (v : V) → IsTable m → IsTable (map_put key v m)
  put-IsTable m key v t = of_update (map_put-IsUpdate m key v t)
    where
      of_update : IsUpdate m key v (map_put key v m) → IsTable (map_put key v m)
      of_update (is_update u same other) = u

pub has-init : (places x : ℕ) → has (map_init {V = ℕ} places) x ≡ false
unfolding has map_get map_init
has-init places x = refl

pub get-init : (places x : ℕ) → map_get (map_init {V = ℕ} places) x ≡ none
unfolding map_get map_init
get-init places x = refl

-- The keys of a list, put into a set.
pub puts : List ℕ → Map ℕ → Map ℕ
puts [] m = m
puts (k ∷ ks) m = puts ks (map_put k 0 m)

pub puts-IsTable : (ks : List ℕ) (m : Map ℕ) → IsTable m → IsTable (puts ks m)
unfolding puts
puts-IsTable [] m t = t
puts-IsTable (k ∷ ks) m t = puts-IsTable ks _ (put-IsTable m k 0 t)

puts_on :
    (ks : List ℕ) (m : Map ℕ) (k j : ℕ)
    → IsTable m
    → (has (puts ks (map_put k 0 m)) j ≡ true) ↔ ((has (map_put k 0 m) j ≡ true) ⊎ Memᴰ j ks)
    → (has (puts ks (map_put k 0 m)) j ≡ true) ↔ ((has m j ≡ true) ⊎ Memᴰ j (k ∷ ks))
puts_on ks m k j t ih = (to, from)
  where
    split : (k == j || has m j) ≡ true → (has m j ≡ true) ⊎ Memᴰ j (k ∷ ks)
    split e = elim (Bool-cases (k == j)) [
      | inl q ↦ inr (Memᴰ.head (sym (==→eq k j q)))
      | inr q ↦ inl (rw q at e)
    ]

    to : has (puts ks (map_put k 0 m)) j ≡ true → (has m j ≡ true) ⊎ Memᴰ j (k ∷ ks)
    to e = elim (ih.0 e) [ inl h ↦ split (sym (has-put m k j 0 t) ∙ h) | inr r ↦ inr (Memᴰ.tail r) ]

    or_true : (a : Bool) → (a || true) ≡ true
    or_true true = refl
    or_true false = refl

    from : (has m j ≡ true) ⊎ Memᴰ j (k ∷ ks) → has (puts ks (map_put k 0 m)) j ≡ true
    from s = elim s [
      | inl h ↦ ih.1 (inl (has-put m k j 0 t ∙ ap (λ b. k == j || b) h ∙ or_true (k == j)))
      | inr e ↦ elim (Memᴰ.cases_cons e) [
        | inl q ↦ ih.1 (inl (has-put m k j 0 t ∙ ground (arith, q)))
        | inr r ↦ ih.1 (inr r)
      ]
    ]

pub has-puts :
    (ks : List ℕ) (m : Map ℕ) (j : ℕ)
    → IsTable m
    → (has (puts ks m) j ≡ true) ↔ ((has m j ≡ true) ⊎ Memᴰ j ks)
unfolding puts
has-puts [] m j t = (λ h. inl h, λ s. elim s [ inl h ↦ h | inr e ↦ elim e [ ] ])
has-puts (k ∷ ks) m j t = puts_on ks m k j t (has-puts ks (map_put k 0 m) j (put-IsTable m k 0 t))

module _ {V : Type 0} where
  pub get-put_self :
      (m : Map V) (key : ℕ) (v : V) → IsTable m → map_get (map_put key v m) key ≡ some v
  get-put_self m key v t = of_update (map_put-IsUpdate m key v t)
    where
      of_update : IsUpdate m key v (map_put key v m) → map_get (map_put key v m) key ≡ some v
      of_update (is_update u same other) = same

  pub get-put_ne :
      (m : Map V) (key j : ℕ) (v : V)
      → IsTable m
      → key ≢ j
      → map_get (map_put key v m) j ≡ map_get m j
  get-put_ne m key j v t h = of_update (map_put-IsUpdate m key v t)
    where
      of_update : IsUpdate m key v (map_put key v m) → map_get (map_put key v m) j ≡ map_get m j
      of_update (is_update u same other) = other j h

-- ===== src/Features/Growth.antt =====
-- wc3hook/features_obs.h: the open-addressing map as it grows.
use wc3env.Prelude.{
  ℕ, zero, suc, ◌+◌, ◌-◌, ◌*◌, ◌≤◌, ◌<◌, ◌≡◌, ◌≢◌, inl, inr, refl, sym, ap, subst, ◌∙◌, Bool, true,
  false, Option, none, some, if◌then◌else◌, ltb, ltb→ge, ◌==◌, arith, Bool-cases, ==→eq, ==→ne,
}
use wc3env.Features.{
  Map, is_free, free_or_key, map_slot, store, map_put, map_get, map_grow, map_init, refill,
}
use wc3env.Features.Table.{occupied, IsMap, is_map, Stop, map_slot-Stop}
use wc3env.Features.Stored.{IsPut, is_put, store-IsPut, count_le, map_get-at, value}

module _ {V : Type 0} where
  occupied-le : (p : ℕ → Option (ℕ × V)) (n : ℕ) → occupied p n ≤ n
  unfolding occupied
  occupied-le p zero = omega arith
  occupied-le p (suc n) = by_free (is_free (p n)) (occupied-le p n)
    where
      by_free :
          (b : Bool) → occupied p n ≤ n → (if b then occupied p n else suc (occupied p n)) ≤ suc n
      by_free true h = omega arith
      by_free false h = omega arith

  occupied-none :
      (places : ℕ → Option (ℕ × V)) (n : ℕ) → ((i : ℕ) → places i ≡ none) → 0 ≡ occupied places n
  unfolding occupied
  occupied-none places zero h = refl
  occupied-none places (suc n) h = rw (h n) (occupied-none places n h)

  cap-store : (k : ℕ) (v : V) (b : Map V) → (store k v b).cap ≡ b.cap
  unfolding store
  cap-store k v b = refl

  n-store_le : (k : ℕ) (v : V) (b : Map V) → (store k v b).n ≤ b.n + 1
  unfolding store
  n-store_le k v b = count_le b (map_slot b k)

  -- What one place of the old map does to the new one.
  abbrev placed : Map V → Option (ℕ × V) → Map V
  placed b o = elim o as (λ o. Map V) [ none ↦ b | some e ↦ store e.0 e.1 b ]

  -- A map that has the entries of the places of `m` below `upto`, and twice its places.
  data IsCopy (m : Map V) (upto : ℕ) (b : Map V) : Type 0 where
    is_copy :
        IsMap b
        → b.cap ≡ m.cap * 2
        → b.n ≤ occupied m.places upto
        → ((k : ℕ) → map_slot m k < upto → map_get b k ≡ map_get m k)
        → ((k : ℕ) → upto ≤ map_slot m k → map_get b k ≡ none)
        → IsCopy m upto b

  init-IsCopy : (m : Map V) → 0 < m.cap → IsCopy m 0 (map_init (m.cap * 2))
  unfolding map_init occupied map_get
  init-IsCopy m h =
      is_copy
        (is_map (omega arith) (occupied-none _ (m.cap * 2) (λ i. refl))
          (λ i k x hi e. absurd (ground arith)))
        refl (omega arith) (λ k l. absurd (omega (arith, l))) (λ k l. refl)

module _ {V : Type 0} (m : Map V) (hc : 0 < m.cap) (stop : (k : ℕ) → Stop m k (map_slot m k))
    (found : (i k : ℕ) (x : V) → i < m.cap → m.places i ≡ some (k, x) → map_slot m k ≡ i) where
  -- One place of the old map.
  IsCopy-place :
      (i : ℕ) (b : Map V) (o : Option (ℕ × V))
      → i < m.cap
      → m.places i ≡ o
      → IsCopy m i b
      → IsCopy m (suc i) (placed b o)
  unfolding occupied
  IsCopy-place i b none hi e (is_copy im c n below above) =
      is_copy im c (rw e n) lower (λ k l. above k (omega (arith, l)))
    where
      lower : (k : ℕ) → map_slot m k < suc i → map_get b k ≡ map_get m k
      lower k l = elim (Bool-cases (map_slot m k == i)) [
        | inl q ↦
            above k (omega (arith, ==→eq _ i q)) ∙ sym (map_get-at m k i (==→eq _ i q) ∙ ap value e)
        | inr q ↦ below k (omega (arith, l, ==→ne _ i q))
      ]
  IsCopy-place i b (some (k₀, v₀)) hi e (is_copy im c n below above) =
      put (store-IsPut b k₀ v₀ im (omega (arith, n, c, occupied-le m.places i, hi)))
    where
      put : IsPut b k₀ v₀ (store k₀ v₀ b) → IsCopy m (suc i) (store k₀ v₀ b)
      put (is_put im₂ same other) =
          is_copy im₂ (cap-store k₀ v₀ b ∙ c) (rw e (omega (arith, n, n-store_le k₀ v₀ b))) lower
            upper
        where
          at_slot : map_slot m k₀ ≡ i
          at_slot = found i k₀ v₀ hi e

          lower : (k : ℕ) → map_slot m k < suc i → map_get (store k₀ v₀ b) k ≡ map_get m k
          lower k l = elim (Bool-cases (k₀ == k)) [
            | inl q ↦
                ap (map_get (store k₀ v₀ b)) (sym (==→eq k₀ k q))
                ∙ same
                ∙ sym (map_get-at m k₀ i at_slot ∙ ap value e)
                ∙ ap (map_get m) (==→eq k₀ k q)
            | inr q ↦ other k (==→ne k₀ k q) ∙ below k (omega (arith, l, not_at k (==→ne k₀ k q)))
          ]
            where
              not_at : (k : ℕ) → k₀ ≢ k → map_slot m k ≢ i
              not_at k h r = h (
                  ==→eq k₀ k (
                    sym (ap (λ o. free_or_key o k) e)
                    ∙ ap (λ t. free_or_key (m.places t) k) (sym r)
                    ∙ (stop k).0))

          upper : (k : ℕ) → suc i ≤ map_slot m k → map_get (store k₀ v₀ b) k ≡ none
          upper k l =
              other k (λ q. omega (arith, l, at_slot, ap (map_slot m) q))
              ∙ above k (omega (arith, l))

  refill-IsCopy :
      (left : ℕ) (b : Map V)
      → left ≤ m.cap
      → IsCopy m (m.cap - left) b
      → IsCopy m m.cap (refill left m b)
  unfolding refill
  refill-IsCopy zero b h c = subst (λ n. IsCopy m n b) (omega arith) c
  refill-IsCopy (suc left) b h c = refill-IsCopy left _ (omega arith) (
      subst (λ n. IsCopy m n (placed b (m.places (m.cap - suc left)))) (omega (arith, h))
        (IsCopy-place (m.cap - suc left) b (m.places (m.cap - suc left)) (omega arith) refl c))

  map_grow-IsCopy : IsCopy m m.cap (map_grow m)
  unfolding map_grow
  map_grow-IsCopy =
      refill-IsCopy m.cap (map_init (m.cap * 2)) (omega arith)
        (subst (λ n. IsCopy m n (map_init (m.cap * 2))) (omega arith) (init-IsCopy m hc))

module _ {V : Type 0} where
  -- The invariant between operations: at most every second place has an entry.
  pub data IsTable (m : Map V) : Type 0 where
    is_table : IsMap m → 2 ≤ m.cap → m.n * 2 ≤ m.cap → IsTable m

  -- The table after an entry is put.
  pub data IsUpdate (m : Map V) (key : ℕ) (v : V) (after : Map V) : Type 0 where
    is_update :
        IsTable after
        → map_get after key ≡ some v
        → ((j : ℕ) → key ≢ j → map_get after j ≡ map_get m j)
        → IsUpdate m key v after

  pub init-IsTable : (cap : ℕ) → 2 ≤ cap → IsTable (map_init {V = V} cap)
  unfolding map_init occupied
  init-IsTable cap h =
      is_table
        (is_map (omega arith) (occupied-none {V = V} (λ i. none) cap (λ i. refl))
          (λ i k x hi e. absurd (ground arith)))
        h (omega arith)

  put_grown :
      (m b : Map V) (key : ℕ) (v : V)
      → ((k : ℕ) → map_slot m k < m.cap)
      → 2 ≤ m.cap
      → m.n * 2 ≤ m.cap
      → m.n ≡ occupied m.places m.cap
      → IsCopy m m.cap b
      → IsUpdate m key v (store key v b)
  put_grown m b key v slot h hn count (is_copy im c n below above) =
      put (store-IsPut b key v im (omega (arith, c, n, count, h, hn)))
    where
      put : IsPut b key v (store key v b) → IsUpdate m key v (store key v b)
      put (is_put im₂ same other) =
          is_update
            (is_table im₂ (omega (arith, cap-store key v b, c, h))
              (omega (arith, cap-store key v b, n-store_le key v b, c, n, count, h, hn)))
            same (λ j q. other j q ∙ below j (slot j))

  put_there :
      (m : Map V) (key : ℕ) (v : V)
      → IsMap m
      → 2 ≤ m.cap
      → (m.n + 1) * 2 ≤ m.cap
      → IsUpdate m key v (store key v m)
  put_there m key v im h hn = put (store-IsPut m key v im (omega arith))
    where
      put : IsPut m key v (store key v m) → IsUpdate m key v (store key v m)
      put (is_put im₂ same other) =
          is_update
            (is_table im₂ (omega (arith, cap-store key v m, h))
              (omega (arith, cap-store key v m, n-store_le key v m, hn)))
            same other

  -- The open-addressing map is a finite map, whatever its keys and however they collide: after an entry
  -- is put, its key has its value and each other key what it had before, also where the map grew; and the
  -- map is again one whose probings find each key and end, with at most every second place taken. The
  -- map has two places or more.
  pub map_put-IsUpdate :
      (m : Map V) (key : ℕ) (v : V) → IsTable m → IsUpdate m key v (map_put key v m)
  unfolding map_put
  map_put-IsUpdate m key v (is_table (is_map hc count found) h hn) =
      elim (Bool-cases (ltb m.cap ((m.n + 1) * 2))) [
        | inl e ↦
            rw e
              (put_grown m _ key v (λ k. (stop k).1) h hn count (map_grow-IsCopy m hc stop found))
        | inr e ↦ rw e (
            put_there m key v (is_map hc count found) h
              (omega (arith, ltb→ge m.cap ((m.n + 1) * 2) e)))
      ]
    where
      stop : (k : ℕ) → Stop m k (map_slot m k)
      stop k = map_slot-Stop m k hc (omega (arith, count, h, hn))

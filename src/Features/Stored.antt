-- ===== src/Features/Stored.antt =====
-- wc3hook/features_obs.h: an entry put into the open-addressing map.
use wc3env.Prelude.{
  ℕ, suc, ◌+◌, ◌≤◌, ◌<◌, ◌≡◌, ◌≢◌, ◌⊎◌, inl, inr, refl, sym, ap, ◌∙◌, Bool, true, false, Option,
  none, some, if◌then◌else◌, ◌==◌, arith, Bool-cases, ==→eq, ==→ne,
}
use wc3env.Features.{Map, free_or_key, at_place, is_free, map_slot, store, map_get}
use wc3env.Features.Table.{occupied, IsMap, is_map, Stop, map_slot-Stop}
use wc3env.Features.Placed.{
  at_place_self, at_place_ne, occupied-at_place, with_entry, probe_again, probe_same,
}

module _ {V : Type 0} where
  abbrev pub value : Option (ℕ × V) → Option V
  value none = none
  value (some e) = some e.1

  pub map_get-at : (m : Map V) (k t : ℕ) → map_slot m k ≡ t → map_get m k ≡ value (m.places t)
  unfolding map_get
  map_get-at m k t e = of_place (m.places (map_slot m k)) ∙ ap (λ t. value (m.places t)) e
    where
      of_place :
          (o : Option (ℕ × V))
          → elim o as (λ o. Option V) [ none ↦ none | some e ↦ some e.1 ] ≡ value o
      of_place none = refl
      of_place (some e) = refl

  -- The place of another key: the same if the probing did not end where the entry is put.
  module _ (m : Map V) (key n : ℕ) (v : V) where
    abbrev put_in : Map V
    put_in = with_entry m (map_slot m key) (key, v) n

    slot_again : map_slot put_in key ≡ map_slot m key
    unfolding map_slot
    slot_again = probe_again m.cap m (map_slot m key) _ key n v refl

    slot_same :
        (j : ℕ)
        → key ≢ j
        → (map_slot m j ≢ map_slot m key) ⊎ (free_or_key (m.places (map_slot m key)) j ≡ false)
        → map_slot put_in j ≡ map_slot m j
    unfolding map_slot
    slot_same j h c = probe_same m.cap m (map_slot m key) _ j _ key n v h refl c

module _ {V : Type 0} (m : Map V) (key n : ℕ) (v : V) (stop : (j : ℕ) → Stop m j (map_slot m j))
    (stop_after : (j : ℕ) → Stop (put_in m key n v) j (map_slot (put_in m key n v) j))
    (found : (i k : ℕ) (x : V) → i < m.cap → m.places i ≡ some (k, x) → map_slot m k ≡ i) where
  abbrev stored : Map V
  stored = put_in m key n v

  abbrev slot : ℕ
  slot = map_slot m key

  -- What stands at a place where the probing for an absent key ends.
  absent_at :
      (j u : ℕ) (o : Option (ℕ × V))
      → key ≢ j
      → map_slot m j ≡ slot
      → slot ≢ u
      → u < m.cap
      → m.places u ≡ o
      → free_or_key o j ≡ true
      → o ≡ none
  absent_at j u none h e q hu p f = refl
  absent_at j u (some (k, x)) h e q hu p f =
      absurd (q (sym e ∙ ap (map_slot m) (sym (==→eq k j f)) ∙ found u k x hu p))

  -- A key whose probing ended at the place that is filled, and which was free.
  displaced : (j : ℕ) → key ≢ j → map_slot m j ≡ slot → map_get stored j ≡ none
  displaced j h e =
      map_get-at stored j _ refl ∙ ap value (by_place (map_slot stored j) (stop_after j))
    where
      by_place : (u : ℕ) → Stop stored j u → at_place m.places slot (key, v) u ≡ none
      by_place u (b, hu) = elim (Bool-cases (slot == u)) [
        | inl q ↦ absurd (h (==→eq key j (rw q at b)))
        | inr q ↦ rw q (absent_at j u (m.places u) h e (==→ne slot u q) hu refl (rw q at b))
      ]

  kept :
      (j : ℕ)
      → key ≢ j
      → map_slot stored j ≡ map_slot m j
      → map_slot m j ≢ slot
      → map_get stored j ≡ map_get m j
  kept j h e q =
      map_get-at stored j _ e
      ∙ ap value (at_place_ne m.places slot (map_slot m j) (key, v) (λ r. q (sym r)))
      ∙ sym (map_get-at m j _ refl)

  get_other : (j : ℕ) → key ≢ j → map_get stored j ≡ map_get m j
  get_other j h = elim (Bool-cases (slot == map_slot m j)) [
    | inr q ↦
        kept j h (slot_same m key n v j h (inl λ r. ==→ne slot (map_slot m j) q (sym r)))
          λ r. ==→ne slot (map_slot m j) q (sym r)
    | inl q ↦ by_entry (m.places slot) refl (stop key).0 (sym (==→eq slot (map_slot m j) q))
  ]
    where
      by_entry :
          (o : Option (ℕ × V))
          → m.places slot ≡ o
          → free_or_key o key ≡ true
          → map_slot m j ≡ slot
          → map_get stored j ≡ map_get m j
      by_entry none p f e = displaced j h e ∙ sym (map_get-at m j slot e ∙ ap value p)
      by_entry (some (k, x)) p f e = absurd (
          h (
            sym (==→eq k key f)
            ∙ ==→eq k j (
                sym (ap (λ o. free_or_key o j) p)
                ∙ ap (λ t. free_or_key (m.places t) j) (sym e)
                ∙ (stop j).0)))

  get_same : map_get stored key ≡ some v
  get_same =
      map_get-at stored key slot (slot_again m key n v)
      ∙ ap value (at_place_self m.places slot (key, v))

  -- Every entry is found again.
  found_after :
      (i k : ℕ) (x : V)
      → i < m.cap
      → at_place m.places slot (key, v) i ≡ some (k, x)
      → map_slot stored k ≡ i
  found_after i k x hi e = elim (Bool-cases (slot == i)) [
    | inl q ↦
        ap (map_slot stored) (sym (key_of (key, v) (k, x) (rw q at e)))
        ∙ slot_again m key n v
        ∙ ==→eq slot i q
    | inr q ↦ elsewhere (==→ne slot i q) (found i k x hi (rw q at e))
  ]
    where
      key_of : (a b : ℕ × V) → some a ≡ some b → a.0 ≡ b.0
      key_of a b p = ap (λ o. elim o as (λ o. ℕ) [ none ↦ a.0 | some e ↦ e.0 ]) p

      elsewhere : slot ≢ i → map_slot m k ≡ i → map_slot stored k ≡ i
      elsewhere q f =
          slot_same m key n v k (λ r. q (ap (map_slot m) r ∙ f)) (inl λ r. q (sym r ∙ f)) ∙ f

-- The map as a finite map: the values of its keys.
module _ {V : Type 0} where
  pub data IsPut (m : Map V) (key : ℕ) (v : V) (after : Map V) : Type 0 where
    is_put :
        IsMap after
        → map_get after key ≡ some v
        → ((j : ℕ) → key ≢ j → map_get after j ≡ map_get m j)
        → IsPut m key v after

  count_after :
      (m : Map V) (s : ℕ) (e : ℕ × V)
      → s < m.cap
      → m.n ≡ occupied m.places m.cap
      → (if is_free (m.places s) then m.n + 1 else m.n) ≡ occupied (at_place m.places s e) m.cap
  count_after m s e h c =
      by_free (is_free (m.places s)) ∙ sym (occupied-at_place m.places s m.cap e h)
    where
      by_free :
          (b : Bool)
          → (if b then m.n + 1 else m.n)
            ≡ (if b then suc (occupied m.places m.cap) else occupied m.places m.cap)
      by_free true = omega (arith, c)
      by_free false = c

  pub count_le : (m : Map V) (s : ℕ) → (if is_free (m.places s) then m.n + 1 else m.n) ≤ m.n + 1
  count_le m s = by_free (is_free (m.places s))
    where
      by_free : (b : Bool) → (if b then m.n + 1 else m.n) ≤ m.n + 1
      by_free true = omega arith
      by_free false = omega arith

  pub store-IsPut :
      (m : Map V) (key : ℕ) (v : V) → IsMap m → m.n + 1 < m.cap → IsPut m key v (store key v m)
  unfolding store
  store-IsPut m key v (is_map hc count found) h =
      is_put (is_map hc counted (found_after m key _ v stop stop_after found))
        (get_same m key _ v stop stop_after found) (get_other m key _ v stop stop_after found)
    where
      stop : (j : ℕ) → Stop m j (map_slot m j)
      stop j = map_slot-Stop m j hc (omega (arith, count, h))

      counted :
          (if is_free (m.places (map_slot m key)) then m.n + 1 else m.n)
          ≡ occupied (at_place m.places (map_slot m key) (key, v)) m.cap
      counted = count_after m (map_slot m key) (key, v) (stop key).1 count

      stop_after :
          (j : ℕ)
          → Stop (put_in m key (if is_free (m.places (map_slot m key)) then m.n + 1 else m.n) v) j (
              map_slot
                (put_in m key (if is_free (m.places (map_slot m key)) then m.n + 1 else m.n) v)
                j)
      stop_after j = map_slot-Stop _ j hc (omega (arith, counted, count_le m (map_slot m key), h))

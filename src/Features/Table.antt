-- ===== src/Features/Table.antt =====
-- wc3hook/features_obs.h: the open-addressing map as a finite map.
use wc3env.Prelude.{
  ℕ, zero, suc, ◌+◌, ◌-◌, ◌*◌, ◌%◌, ◌^◌, ◌<◌, ◌≡◌, ◌⊎◌, inl, inr, refl, sym, ap, subst, ◌∙◌, true,
  false, Option, none, some, if◌then◌else◌, ltb, ltb→lt, ltb→ge, arith, Bool-cases,
}
use native.Mathlib.Nat.{mod-lt, mod_self, mod-eq_of_lt}
use wc3env.Features.{Map, free_or_key, is_free, probe, map_slot}

next_place :
    (cap i : ℕ)
    → i < cap
    → (((i + 1) % cap ≡ i + 1) × (i + 1 < cap)) ⊎ (((i + 1) % cap ≡ 0) × (i + 1 ≡ cap))
next_place cap i h = elim (Bool-cases (ltb (i + 1) cap)) [
  | inl b ↦ inl (mod-eq_of_lt (ltb→lt (i + 1) cap b), ltb→lt (i + 1) cap b)
  | inr b ↦ inr (at_end (omega (arith, ltb→ge (i + 1) cap b)), omega (arith, ltb→ge (i + 1) cap b))
]
  where
    at_end : i + 1 ≡ cap → (i + 1) % cap ≡ 0
    at_end e = ap (λ c. (i + 1) % c) (sym e) ∙ mod_self (i + 1)

module _ {V : Type 0} where
  -- The place where the probing for a key begins.
  abbrev pub home : Map V → ℕ → ℕ
  home m key = key * 2654435761 % 2 ^ 32 % m.cap

  -- The places with an entry, up to `n`.
  unfoldable pub occupied : (ℕ → Option (ℕ × V)) → ℕ → ℕ
  occupied places zero = 0
  occupied places (suc n) =
      if is_free (places n) then occupied places n else suc (occupied places n)

  -- The invariant: each key is found at its place, and the entries are counted.
  pub data IsMap (m : Map V) : Type 0 where
    is_map :
        0 < m.cap
        → m.n ≡ occupied m.places m.cap
        → ((i k : ℕ) (v : V) → i < m.cap → m.places i ≡ some (k, v) → map_slot m k ≡ i)
        → IsMap m

  occupied-free :
      (places : ℕ → Option (ℕ × V)) (n : ℕ)
      → occupied places n < n
      → (f : ℕ) × (f < n) × (places f ≡ none)
  unfolding occupied
  occupied-free places zero h = absurd (omega arith)
  occupied-free places (suc n) h = last (places n) refl h (occupied-free places n)
    where
      last :
          (o : Option (ℕ × V))
          → places n ≡ o
          → (if is_free o then occupied places n else suc (occupied places n)) < suc n
          → (occupied places n < n → (f : ℕ) × (f < n) × (places f ≡ none))
          → (f : ℕ) × (f < suc n) × (places f ≡ none)
      last none e k r = (n, omega arith, e)
      last (some x) e k r = let g = r (omega (arith, k)) in (g.0, omega (arith, g.1), g.2)

  pub probe_here :
      (fuel : ℕ) (m : Map V) (key i : ℕ)
      → free_or_key (m.places i) key ≡ true
      → probe (suc fuel) m key i ≡ i
  unfolding probe
  probe_here fuel m key i b = rw b refl

  pub probe_on :
      (fuel : ℕ) (m : Map V) (key i : ℕ)
      → free_or_key (m.places i) key ≡ false
      → probe (suc fuel) m key i ≡ probe fuel m key ((i + 1) % m.cap)
  unfolding probe
  probe_on fuel m key i b = rw b refl

  -- A place where a probing stops.
  abbrev pub Stop : Map V → ℕ → ℕ → Type 0
  Stop m key t = (free_or_key (m.places t) key ≡ true) × (t < m.cap)

  -- The probing comes to a free place or the key's, if there is a free place `d` steps on.
  probe-Stop :
      (fuel d : ℕ) (m : Map V) (key i f : ℕ)
      → d < fuel
      → i < m.cap
      → f < m.cap
      → m.places f ≡ none
      → (f ≡ i + d) ⊎ (f + m.cap ≡ i + d)
      → Stop m key (probe fuel m key i)
  probe-Stop zero d m key i f hd hi hf e s = absurd (omega arith)
  probe-Stop (suc fuel) zero m key i f hd hi hf e s =
      subst (Stop m key) (sym (probe_here fuel m key i free)) (free, hi)
    where
      same : i ≡ f
      same = elim s [ inl h ↦ omega (arith, h) | inr h ↦ absurd (omega (arith, h)) ]

      free : free_or_key (m.places i) key ≡ true
      free = ap (λ t. free_or_key (m.places t) key) same ∙ ap (λ o. free_or_key o key) e
  probe-Stop (suc fuel) (suc d) m key i f hd hi hf e s =
      elim (Bool-cases (free_or_key (m.places i) key)) [
        | inl b ↦ subst (Stop m key) (sym (probe_here fuel m key i b)) (b, hi)
        | inr b ↦ subst (Stop m key) (sym (probe_on fuel m key i b)) (elim (next_place m.cap i hi) [
          | inl (q, l) ↦
              subst (λ t. Stop m key (probe fuel m key t)) (sym q)
                (probe-Stop fuel d m key (i + 1) f (omega arith) l hf e
                  (elim s [ inl h ↦ inl (omega (arith, h)) | inr h ↦ inr (omega (arith, h)) ]))
          | inr (q, l) ↦
              subst (λ t. Stop m key (probe fuel m key t)) (sym q)
                (probe-Stop fuel d m key 0 f (omega arith) (omega arith) hf e (elim s [
                  | inl h ↦ absurd (omega (arith, h, l))
                  | inr h ↦ inl (omega (arith, h, l))
                ]))
        ])
      ]

  pub map_slot-Stop :
      (m : Map V) (key : ℕ)
      → 0 < m.cap
      → occupied m.places m.cap < m.cap
      → Stop m key (map_slot m key)
  unfolding map_slot
  map_slot-Stop m key hc h = from_free (occupied-free m.places m.cap h)
    where
      hi : home m key < m.cap
      hi = mod-lt (key * 2654435761 % 2 ^ 32) hc

      from_free :
          (f : ℕ) × (f < m.cap) × (m.places f ≡ none) → Stop m key (probe m.cap m key (home m key))
      from_free (f, hf, e) = elim (Bool-cases (ltb f (home m key))) [
        | inl b ↦
            probe-Stop m.cap (f + m.cap - home m key) m key (home m key) f
              (omega (arith, hi, ltb→lt f (home m key) b)) hi hf e (inr (omega (arith, hi)))
        | inr b ↦
            probe-Stop m.cap (f - home m key) m key (home m key) f (omega (arith, hi, hf)) hi hf e
              (inl (omega (arith, ltb→ge f (home m key) b)))
      ]

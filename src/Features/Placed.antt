-- ===== src/Features/Placed.antt =====
-- wc3hook/features_obs.h: probings and the count of entries where one place is filled.
use wc3env.Prelude.{
  ℕ, zero, suc, ◌+◌, ◌%◌, ◌≤◌, ◌<◌, ◌≡◌, ◌≢◌, ◌⊎◌, inl, inr, refl, sym, ap, subst, ◌∙◌, Bool, true,
  false, Option, some, if◌then◌else◌, ◌==◌, arith, Bool-cases, ==→eq, ==→ne, eq→==, ne→==,
}
use wc3env.Features.{Map, free_or_key, at_place, is_free, probe}
use wc3env.Features.Table.{occupied, probe_here, probe_on}

module _ {V : Type 0} where
  pub at_place_self : (p : ℕ → Option (ℕ × V)) (s : ℕ) (e : ℕ × V) → at_place p s e s ≡ some e
  at_place_self p s e = rw (eq→== s s refl) refl

  pub at_place_ne : (p : ℕ → Option (ℕ × V)) (s j : ℕ) (e : ℕ × V) → s ≢ j → at_place p s e j ≡ p j
  at_place_ne p s j e h = rw (ne→== s j h) refl

  occupied-at_place_above :
      (p : ℕ → Option (ℕ × V)) (s n : ℕ) (e : ℕ × V)
      → n ≤ s
      → occupied (at_place p s e) n ≡ occupied p n
  unfolding occupied
  occupied-at_place_above p s zero e h = refl
  occupied-at_place_above p s (suc n) e h =
      rw (ne→== s n (λ q. omega (arith, q)), occupied-at_place_above p s n e (omega arith)) refl

  occupied-at_place_last :
      (p : ℕ → Option (ℕ × V)) (n : ℕ) (e : ℕ × V)
      → occupied (at_place p n e) (suc n)
        ≡ (if is_free (p n) then suc (occupied p (suc n)) else occupied p (suc n))
  unfolding occupied
  occupied-at_place_last p n e =
      rw (eq→== n n refl, occupied-at_place_above p n n e (omega arith)) (by_free (is_free (p n)))
    where
      by_free :
          (a : Bool)
          → suc (occupied p n) ≡ (
              if a
              then suc (if a then occupied p n else suc (occupied p n))
              else (if a then occupied p n else suc (occupied p n)))
      by_free true = refl
      by_free false = refl

  pub occupied-at_place :
      (p : ℕ → Option (ℕ × V)) (s n : ℕ) (e : ℕ × V)
      → s < n
      → occupied (at_place p s e) n ≡ (if is_free (p s) then suc (occupied p n) else occupied p n)
  unfolding occupied
  occupied-at_place p s zero e h = absurd (omega arith)
  occupied-at_place p s (suc n) e h = elim (Bool-cases (s == n)) [
    | inl b ↦
        subst
          (λ t.
            occupied (at_place p t e) (suc n)
            ≡ (if is_free (p t) then suc (occupied p (suc n)) else occupied p (suc n)))
          (sym (==→eq s n b)) (occupied-at_place_last p n e)
    | inr b ↦
        rw (b, occupied-at_place p s n e (omega (arith, ==→ne s n b)))
          (by_free (is_free (p s)) (is_free (p n)))
  ]
    where
      by_free :
          (a c : Bool)
          → (if c
              then (if a then suc (occupied p n) else occupied p n)
              else suc (if a then suc (occupied p n) else occupied p n))
            ≡ (if a
                then suc (if c then occupied p n else suc (occupied p n))
                else (if c then occupied p n else suc (occupied p n)))
      by_free true true = refl
      by_free true false = refl
      by_free false true = refl
      by_free false false = refl

  -- The map with an entry at the place `s`.
  abbrev pub with_entry : Map V → ℕ → ℕ × V → ℕ → Map V
  with_entry m s e n = record m { n = n; places = at_place m.places s e }

  pub probe_again :
      (fuel : ℕ) (m : Map V) (s i key n : ℕ) (v : V)
      → probe fuel m key i ≡ s
      → probe fuel (with_entry m s (key, v) n) key i ≡ s
  unfolding probe
  probe_again zero m s i key n v h = h
  probe_again (suc fuel) m s i key n v h = elim (Bool-cases (s == i)) [
    | inl b ↦
        probe_here fuel (with_entry m s (key, v) n) key i (rw b (eq→== key key refl))
        ∙ sym (==→eq s i b)
    | inr b ↦ elim (Bool-cases (free_or_key (m.places i) key)) [
      | inl c ↦ absurd (==→ne s i b (sym h ∙ probe_here fuel m key i c))
      | inr c ↦
          probe_on fuel (with_entry m s (key, v) n) key i (rw b c)
          ∙ probe_again fuel m s ((i + 1) % m.cap) key n v (sym (probe_on fuel m key i c) ∙ h)
    ]
  ]

  pub probe_same :
      (fuel : ℕ) (m : Map V) (s i j t key n : ℕ) (v : V)
      → key ≢ j
      → probe fuel m j i ≡ t
      → (t ≢ s) ⊎ (free_or_key (m.places s) j ≡ false)
      → probe fuel (with_entry m s (key, v) n) j i ≡ t
  unfolding probe
  probe_same zero m s i j t key n v hk h c = h
  probe_same (suc fuel) m s i j t key n v hk h c = elim (Bool-cases (free_or_key (m.places i) j)) [
    | inl d ↦ elim (Bool-cases (s == i)) [
      | inl b ↦ absurd (not_here (==→eq s i b) (sym h ∙ probe_here fuel m j i d) d c)
      | inr b ↦
          probe_here fuel (with_entry m s (key, v) n) j i (rw b d)
          ∙ sym (probe_here fuel m j i d)
          ∙ h
    ]
    | inr d ↦
        probe_on fuel (with_entry m s (key, v) n) j i (still d)
        ∙ probe_same fuel m s ((i + 1) % m.cap) j t key n v hk (sym (probe_on fuel m j i d) ∙ h) c
  ]
    where
      not_here :
          s ≡ i
          → t ≡ i
          → free_or_key (m.places i) j ≡ true
          → (t ≢ s) ⊎ (free_or_key (m.places s) j ≡ false)
          → ⊥
      not_here p q d (inl k) = k (q ∙ sym p)
      not_here p q d (inr k) =
          absurd (ground (arith, sym (ap (λ x. free_or_key (m.places x) j) p) ∙ k, d))

      still :
          free_or_key (m.places i) j ≡ false
          → free_or_key (at_place m.places s (key, v) i) j ≡ false
      still d = elim (Bool-cases (s == i)) [ inl b ↦ rw b (ne→== key j hk) | inr b ↦ rw b d ]

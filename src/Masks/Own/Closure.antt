-- ===== src/Masks/Own/Closure.antt =====
-- wc3hook/masks.c: the loop over the types that upgrade, as a closure.
use mathlib.Core.List.{Memᴰ}
use wc3env.Prelude.{
  ℕ, zero, suc, ◌+◌, ◌-◌, ◌≤◌, ◌<◌, ◌≡◌, ◌⊎◌, ◌↔◌, inl, inr, refl, sym, subst, ◌∙◌, Bool, true,
  false, not, ◌&&◌, Option, some, List, if◌then◌else◌, ◌==◌, ==→eq, ==→ne, arith, Bool-cases,
}
use wc3env.Features.{Map, map_init, map_put}
use wc3env.Features.Growth.{IsTable, init-IsTable}
use wc3env.Features.Sets.{
  has, keys, puts, Mem-keys, has-put, put-IsTable, puts-IsTable, has-puts, has-init,
}
use wc3env.Masks.{Reference, items}
use wc3env.Masks.Own.{any_had, upgrade_pass, upgrades, had}
use wc3env.Masks.Own.Had.{
  Had, is_done, becomes_had, any_had-Mem, Mem-any_had, missing, missing-le, missing_falls, Within,
}

module _ (r : Reference) (done soon : Map ℕ) where
  -- What the rounds keep of the two sets.
  data IsKept (have' soon' : Map ℕ) : Type 0 where
    is_kept :
        IsTable have'
        → IsTable soon'
        → ((x : ℕ) → has have' x ≡ true → Had r done x)
        → Within done have'
        → ((x : ℕ) → has soon' x ≡ true → (has soon x ≡ true) ⊎ Had r done x)
        → Within soon soon'
        → Within have' soon'
        → IsKept have' soon'

  put-Within : (m : Map ℕ) (k : ℕ) → IsTable m → Within m (map_put k 0 m)
  put-Within m k t x h = has-put m k x 0 t ∙ ground (arith, h)

  IsKept-put :
      (k x : ℕ) (have' soon' : Map ℕ)
      → k < r.units_n
      → Memᴰ x (items r (r.unit k).upgrades_to)
      → has have' x ≡ true
      → IsKept have' soon'
      → IsKept (map_put (r.unit k).id 0 have') (map_put (r.unit k).id 0 soon')
  IsKept-put k x have' soon' hk e q (is_kept t t' sound base sound' base' sub) =
      is_kept (put-IsTable have' id 0 t) (put-IsTable soon' id 0 t') sound_put
        (λ y h. put-Within have' id t y (base y h))
        (λ y h. elim (Bool-cases (id == y)) [
          | inl p ↦ inr (subst (Had r done) (==→eq id y p) here)
          | inr p ↦ sound' y (rw p at (sym (has-put soon' id y 0 t') ∙ h))
        ])
        (λ y h. put-Within soon' id t' y (base' y h))
        (λ y h. elim (Bool-cases (id == y)) [
          | inl p ↦ has-put soon' id y 0 t' ∙ rw p refl
          | inr p ↦ put-Within soon' id t' y (sub y (rw p at (sym (has-put have' id y 0 t) ∙ h)))
        ])
    where
      id : ℕ
      id = (r.unit k).id

      here : Had r done id
      here = becomes_had k x hk refl e (sound x q)

      sound_put : (y : ℕ) → has (map_put id 0 have') y ≡ true → Had r done y
      sound_put y h = elim (Bool-cases (id == y)) [
        | inl p ↦ subst (Had r done) (==→eq id y p) here
        | inr p ↦ sound y (rw p at (sym (has-put have' id y 0 t) ∙ h))
      ]

  -- Of the last `left` types, one was missing and is there now; or none can be added.
  abbrev Added : Map ℕ → Map ℕ → Type 0
  Added m m' =
      (k : ℕ) × (k < r.units_n) × (has m (r.unit k).id ≡ false) × (has m' (r.unit k).id ≡ true)

  abbrev Closed : ℕ → Map ℕ → Type 0
  Closed left m =
      (k : ℕ)
      → k < r.units_n
      → r.units_n ≤ k + left
      → any_had r m (items r (r.unit k).upgrades_to) ≡ true
      → has m (r.unit k).id ≡ true

  data IsPass (left : ℕ) (have soon₀ : Map ℕ) (changed : Bool) : Map ℕ × Map ℕ × Bool → Type 0 where
    adding :
        {have' soon' : Map ℕ}
        → IsKept have' soon'
        → Within have have'
        → (changed ≡ true) ⊎ Added have have'
        → IsPass left have soon₀ changed (have', soon', true)
    closed :
        changed ≡ false
        → IsKept have soon₀
        → Closed left have
        → IsPass left have soon₀ changed (have, soon₀, false)

  -- One type: it is added if it is missing and becomes one that is had.
  abbrev adds : Map ℕ → ℕ → Bool
  adds m k = not (has m (r.unit k).id) && any_had r m (items r (r.unit k).upgrades_to)

  adds_missing : (m : Map ℕ) (k : ℕ) → adds m k ≡ true → has m (r.unit k).id ≡ false
  adds_missing m k h = ground arith

  adds_any :
      (m : Map ℕ) (k : ℕ) → adds m k ≡ true → any_had r m (items r (r.unit k).upgrades_to) ≡ true
  adds_any m k h = ground arith

  adds_closed :
      (m : Map ℕ) (k : ℕ)
      → adds m k ≡ false
      → any_had r m (items r (r.unit k).upgrades_to) ≡ true
      → has m (r.unit k).id ≡ true
  adds_closed m k h g = ground arith

  IsKept-IsTable : (m s : Map ℕ) → IsKept m s → IsTable m
  IsKept-IsTable m s (is_kept t t' a b c d e) = t

  IsPass-added :
      (left k : ℕ) (m s : Map ℕ) (changed : Bool) (out : Map ℕ × Map ℕ × Bool)
      → k < r.units_n
      → IsTable m
      → has m (r.unit k).id ≡ false
      → IsPass left (map_put (r.unit k).id 0 m) (map_put (r.unit k).id 0 s) true out
      → IsPass (suc left) m s changed out
  IsPass-added left k m s changed out hk t h (adding kept grows more) =
      adding kept (λ x p. grows x (put-Within m _ t x p))
        (inr (k, hk, h, grows _ (has-put m (r.unit k).id (r.unit k).id 0 t ∙ ground arith)))
  IsPass-added left k m s changed out hk t h (closed e kept no_more) = absurd (ground arith)

  IsPass-skipped :
      (left : ℕ) (m s : Map ℕ) (changed : Bool) (out : Map ℕ × Map ℕ × Bool)
      → suc left ≤ r.units_n
      → adds m (r.units_n - suc left) ≡ false
      → IsPass left m s changed out
      → IsPass (suc left) m s changed out
  IsPass-skipped left m s changed out hl h (adding kept grows more) = adding kept grows more
  IsPass-skipped left m s changed out hl h (closed e kept no_more) = closed e kept at
    where
      at : Closed (suc left) m
      at k hk l g = elim (Bool-cases (r.units_n - suc left == k)) [
        | inl q ↦
            subst
              (λ k.
                any_had r m (items r (r.unit k).upgrades_to) ≡ true → has m (r.unit k).id ≡ true)
              (==→eq _ k q) (adds_closed m _ h) g
        | inr q ↦ no_more k hk (omega (arith, ==→ne _ k q)) g
      ]

  upgrade_pass-IsPass :
      (left : ℕ) (m s : Map ℕ) (changed : Bool)
      → left ≤ r.units_n
      → IsKept m s
      → IsPass left m s changed (upgrade_pass r left m s changed)
  unfolding upgrade_pass
  upgrade_pass-IsPass zero m s true hl kept = adding kept (λ x h. h) (inl refl)
  upgrade_pass-IsPass zero m s false hl kept =
      closed refl kept (λ k hk l g. absurd (omega (arith, hk, l)))
  upgrade_pass-IsPass (suc left) m s changed hl kept =
      elim (Bool-cases (adds m (r.units_n - suc left))) [
        | inl e ↦
            let (x, mem, p) =
              any_had-Mem r m (items r (r.unit (r.units_n - suc left)).upgrades_to)
                (adds_any m (r.units_n - suc left) e) in
            rw e (
              IsPass-added left (r.units_n - suc left) m s changed _ (omega arith)
                (IsKept-IsTable m s kept) (adds_missing m (r.units_n - suc left) e)
                (upgrade_pass-IsPass left (map_put (r.unit (r.units_n - suc left)).id 0 m)
                  (map_put (r.unit (r.units_n - suc left)).id 0 s) true (omega arith)
                  (IsKept-put (r.units_n - suc left) x m s (omega arith) mem p kept)))
        | inr e ↦ rw e (
            IsPass-skipped left m s changed _ hl e
              (upgrade_pass-IsPass left m s changed (omega arith) kept))
      ]

  -- The set that the rounds end with.
  pub data IsClosure : Option (Map ℕ) → Type 0 where
    is_closure :
        {soon' : Map ℕ}
        → IsTable soon'
        → ((x : ℕ) → (has soon' x ≡ true) ↔ ((has soon x ≡ true) ⊎ Had r done x))
        → IsClosure (some soon')

  Had-Closed :
      (m : Map ℕ) (x : ℕ) → Within done m → Closed r.units_n m → Had r done x → has m x ≡ true
  Had-Closed m x base c (is_done h) = base x h
  Had-Closed m x base c (becomes_had k y hk e mem h) =
      subst (λ x. has m x ≡ true) e
        (c k hk (omega arith) (Mem-any_had r m y _ mem (Had-Closed m y base c h)))

  Closed-IsClosure : (m s : Map ℕ) → IsKept m s → Closed r.units_n m → IsClosure (some s)
  Closed-IsClosure m s (is_kept t t' sound base sound' base' sub) c =
      is_closure t' (λ x.
        (sound' x, λ h. elim h [ inl p ↦ base' x p | inr p ↦ sub x (Had-Closed m x base c p) ]))

  -- A round, and what follows it.
  after_round :
      (fuel : ℕ) (m s : Map ℕ) (out : Map ℕ × Map ℕ × Bool)
      → IsPass r.units_n m s false out
      → missing r r.units_n m < suc fuel
      → ((m' s' : Map ℕ)
          → IsKept m' s'
          → missing r r.units_n m' < fuel
          → IsClosure (upgrades r fuel m' s'))
      → IsClosure (if out.2 then upgrades r fuel out.0 out.1 else some out.1)
  after_round fuel m s out (adding {have' = m'} {soon' = s'} kept grows (inl e)) h ih =
      absurd (ground arith)
  after_round fuel m s out (adding {have' = m'} {soon' = s'} kept grows (inr (k, hk, p, q))) h ih =
      ih m' s' kept (omega (arith, missing_falls r r.units_n k m m' grows hk p q))
  after_round fuel m s out (closed e kept no_more) h ih = Closed-IsClosure m s kept no_more

  upgrades-IsClosure :
      (fuel : ℕ) (m s : Map ℕ)
      → IsKept m s
      → missing r r.units_n m < fuel
      → IsClosure (upgrades r fuel m s)
  unfolding upgrades
  upgrades-IsClosure zero m s kept h = absurd (omega arith)
  upgrades-IsClosure (suc fuel) m s kept h =
      after_round fuel m s (upgrade_pass r r.units_n m s false)
        (upgrade_pass-IsPass r.units_n m s false (omega arith) kept) h (upgrades-IsClosure fuel)

  -- The loop over the types that upgrade ends, whatever the reference table holds, cycles and types
  -- named twice among them: within one round more than the table has types. What it ends with is the
  -- set that was there and the least set that has each type that is done and each type of the table
  -- that upgrades into one that it has. The sets that it begins with are tables as `map_put` keeps
  -- them.
  pub had-IsClosure : IsTable done → IsTable soon → IsClosure (had r done soon)
  unfolding had
  had-IsClosure t t' =
      upgrades-IsClosure (r.units_n + 1) have₀ soon₀
        (is_kept (puts-IsTable ks _ start) (puts-IsTable ks soon t')
          (λ x h. is_done (elim ((has-puts ks (map_init 64) x start).0 h) [
            | inl p ↦ absurd (empty x p)
            | inr e ↦ (Mem-keys done x t).0 e
          ]))
          (λ x h. (has-puts ks (map_init 64) x start).1 (inr ((Mem-keys done x t).1 h)))
          (λ x h. elim ((has-puts ks soon x t').0 h) [
            | inl p ↦ inl p
            | inr e ↦ inr (is_done ((Mem-keys done x t).0 e))
          ])
          (λ x h. (has-puts ks soon x t').1 (inl h))
          (λ x h. (has-puts ks soon x t').1 (elim ((has-puts ks (map_init 64) x start).0 h) [
            | inl p ↦ absurd (empty x p)
            | inr e ↦ inr e
          ])))
        (omega (arith, missing-le r r.units_n have₀))
    where
      ks : List ℕ
      ks = keys done

      have₀ : Map ℕ
      have₀ = puts ks (map_init 64)

      soon₀ : Map ℕ
      soon₀ = puts ks soon

      start : IsTable (map_init {V = ℕ} 64)
      start = init-IsTable 64 (omega arith)

      empty : (x : ℕ) → has (map_init {V = ℕ} 64) x ≡ true → ⊥
      empty x h = ground (arith, has-init 64 x)

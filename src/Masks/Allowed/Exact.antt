-- ===== src/Masks/Allowed/Exact.antt =====
-- wc3hook/masks.c: what may be trained, researched and built, exactly.

use wc3env.Prelude.{
  ℕ, ◌-◌, ◌%◌, ◌<◌, ◌≡◌, ◌↔◌, inl, inr, refl, sym, ap, ◌∙◌, subst, true, false, Option, none, some,
  arith, Option-cases,
}
use wc3env.Prelude.Words.{test_bit}
use wc3env.Features.{Map, map_get}
use wc3env.Features.Growth.{IsTable}
use wc3env.Features.Sets.{has, keys, Mem-keys}
use wc3env.Masks.{Reference, FtUnit, FtUpgrade, unit_info, upgrade_info, ft_structure}
use wc3env.Masks.Own.{Own}
use wc3env.Masks.Own.Init.Counts.{level_of}
use wc3env.Masks.Allowed.{
  Allowed, nothing, no_bits, bit_at, argument_of, allow_each, train_body, trainable, level_in,
  research_body, researchable, can_research, build_body, buildable,
}
use wc3env.Masks.Allowed.Each.{bit_at-allow_each, any-allow_each}
use wc3env.Masks.Allowed.Needs.{
  IsTrainable, IsBuildable, IsResearchable, can_train-to, can_train-from, can_build-to,
  can_build-from, can_research-to, can_research-from,
}

zero_bit : (p : ℕ) → test_bit 0 p ≡ false
zero_bit p = grind arith

bit_at-no_bits : (j : ℕ) → bit_at no_bits j ≡ false
unfolding bit_at
bit_at-no_bits j = zero_bit (7 - j % 8)

module _ (r : Reference) {Real : Type 0} (w : Own Real) where
  -- What the three loops allow.
  pub data CanTrain (raw : ℕ) : Type 0 where
    can_train_it :
        (key : ℕ) (u : FtUnit)
        → has w.makes key ≡ true
        → unit_info r key ≡ some u
        → IsTrainable r w u
        → u.id ≡ raw
        → CanTrain raw

  pub data CanResearch (raw : ℕ) : Type 0 where
    an_upgrade :
        (up : FtUpgrade) (level : ℕ)
        → has w.makes raw ≡ true
        → upgrade_info r raw ≡ some up
        → level ≡ level_of (map_get w.research raw)
        → IsResearchable r w up level
        → CanResearch raw
    a_tier :
        (u : FtUnit)
        → has w.makes raw ≡ true
        → upgrade_info r raw ≡ none
        → unit_info r raw ≡ some u
        → test_bit u.flags ft_structure ≡ true
        → IsBuildable r w u
        → CanResearch raw

  pub data CanBuild (raw : ℕ) : Type 0 where
    can_build_it :
        (key : ℕ) (u : FtUnit)
        → has w.builds key ≡ true
        → unit_info r key ≡ some u
        → IsBuildable r w u
        → u.id ≡ raw
        → CanBuild raw

  -- The bits are those of the arguments of what is allowed, and `any` tells if there is something.
  pub record IsExact (allows : ℕ → Type 0) (a : Allowed) : Type 0 where
    pub bit :
        (j : ℕ)
        → (bit_at a.bits j ≡ true) ↔ ((raw : ℕ) × allows raw × (0 < j) × (argument_of r raw ≡ j))
    pub any : (a.any ≡ true) ↔ ((raw : ℕ) × allows raw)

  -- From what the body gives of each key of a set to what is allowed.
  IsExact-each :
      (body : ℕ → Option ℕ) (m : Map ℕ) (allows : ℕ → Type 0)
      → IsTable m
      → ((k raw : ℕ) → has m k ≡ true → body k ≡ some raw → allows raw)
      → ((raw : ℕ) → allows raw → (k : ℕ) × (has m k ≡ true) × (body k ≡ some raw))
      → IsExact allows (allow_each r body (keys m) nothing)
  IsExact-each body m allows t to from = record {
    bit = λ j. (
      λ p. elim ((bit_at-allow_each r body (keys m) nothing j (λ i. omega arith)).0 p) [
        | inl q ↦ absurd (none_set j q)
        | inr (k, raw, e, b, l, g) ↦ (raw, to k raw ((Mem-keys m k t).0 e) b, l, g)
      ],
      λ q. (bit_at-allow_each r body (keys m) nothing j (λ i. omega arith)).1 (
          let (raw, a, l, g) = q in
          let (k, h, b) = from raw a in inr (k, raw, (Mem-keys m k t).1 h, b, l, g)),
    );
    any = (
      λ p. elim ((any-allow_each r body (keys m) nothing).0 p) [
        | inl q ↦ absurd (ground arith)
        | inr (k, raw, e, b) ↦ (raw, to k raw ((Mem-keys m k t).0 e) b)
      ],
      λ q.
          (any-allow_each r body (keys m) nothing).1 (
            let (raw, a) = q in
            let (k, h, b) = from raw a in inr (k, raw, (Mem-keys m k t).1 h, b)),
    );
  }
    where
      none_set : (j : ℕ) → bit_at no_bits j ≡ true → ⊥
      none_set j q = ground (arith, bit_at-no_bits j)

  train-to : (k raw : ℕ) → has w.makes k ≡ true → train_body r w k ≡ some raw → CanTrain raw
  unfolding train_body
  train-to k raw h e = elim (Option-cases (unit_info r k)) [
    | inl n ↦ absurd (ground arith)
    | inr (u, n) ↦ can_train_it k u h n (can_train-to r w u (ground arith)) (ground arith)
  ]

  train-from :
      (raw : ℕ) → CanTrain raw → (k : ℕ) × (has w.makes k ≡ true) × (train_body r w k ≡ some raw)
  unfolding train_body
  train-from raw (can_train_it k u h n t e) = (k, h, let c = can_train-from r w u t in ground arith)

  build-to : (k raw : ℕ) → has w.builds k ≡ true → build_body r w k ≡ some raw → CanBuild raw
  unfolding build_body
  build-to k raw h e = elim (Option-cases (unit_info r k)) [
    | inl n ↦ absurd (ground arith)
    | inr (u, n) ↦ can_build_it k u h n (can_build-to r w u (ground arith)) (ground arith)
  ]

  build-from :
      (raw : ℕ) → CanBuild raw → (k : ℕ) × (has w.builds k ≡ true) × (build_body r w k ≡ some raw)
  unfolding build_body
  build-from raw (can_build_it k u h n t e) = (k, h, let c = can_build-from r w u t in ground arith)

  level_in-level_of : (o : Option ℕ) → level_in r w o ≡ level_of o
  unfolding level_in
  level_in-level_of none = refl
  level_in-level_of (some level) = refl

  research-able :
      (k raw : ℕ) (up : FtUpgrade)
      → upgrade_info r k ≡ some up
      → research_body r w k ≡ some raw
      → can_research r w up (level_in r w (map_get w.research k)) ≡ true
  unfolding research_body
  research-able k raw up n e = ground arith

  research-to :
      (k raw : ℕ) → has w.makes k ≡ true → research_body r w k ≡ some raw → CanResearch raw
  unfolding research_body
  research-to k raw h e = elim (Option-cases (upgrade_info r k)) [
    | inr (up, n) ↦ subst CanResearch (ground arith) (
        an_upgrade up _ h n refl (
          can_research-to r w up _
            (rw (level_in-level_of (map_get w.research k)) at (research-able k raw up n e))))
    | inl n ↦ elim (Option-cases (unit_info r k)) [
      | inl n' ↦ absurd (ground arith)
      | inr (u, n') ↦
          subst CanResearch (ground arith)
            (a_tier u h n n' (ground arith) (can_build-to r w u (ground arith)))
    ]
  ]

  research-from :
      (raw : ℕ)
      → CanResearch raw
      → (k : ℕ) × (has w.makes k ≡ true) × (research_body r w k ≡ some raw)
  unfolding research_body
  research-from raw (an_upgrade up level h n l t) = (
    raw,
    h,
    let c : can_research r w up (level_in r w (map_get w.research raw)) ≡ true =
          ap (can_research r w up) (level_in-level_of (map_get w.research raw) ∙ sym l)
          ∙ can_research-from r w up level t in
        ground arith,
  )
  research-from raw (a_tier u h n n' s t) = (raw, h, let c = can_build-from r w u t in ground arith)

  -- The arguments that the types train, research and build allow are exactly those of what can be
  -- trained, researched and built, whatever order the sets are gone through in, and the type itself is
  -- allowed just when there is something, whether or not it has an argument. A unit can be trained if a
  -- structure makes it, it is no structure unless a hero, its requirements are had and the stock pays
  -- for it; a hero only while there are fewer than three, with what the number of heroes asks for, and
  -- free if it is the first. An upgrade can be researched below its last level, by the next level's cost
  -- and requirements; so can a structure that another upgrades into, and a worker builds, by their own.
  -- The sets are tables as `map_put` keeps them.
  pub allowed-IsExact :
      IsTable w.makes
      → IsTable w.builds
      → IsExact CanTrain (trainable r w nothing)
        × IsExact CanResearch (researchable r w nothing)
        × IsExact CanBuild (buildable r w nothing)
  unfolding trainable researchable buildable
  allowed-IsExact t t' = (
    IsExact-each (train_body r w) w.makes CanTrain t train-to train-from,
    IsExact-each (research_body r w) w.makes CanResearch t research-to research-from,
    IsExact-each (build_body r w) w.builds CanBuild t' build-to build-from,
  )

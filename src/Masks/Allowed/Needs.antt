-- ===== src/Masks/Allowed/Needs.antt =====
-- wc3hook/masks.c: what a type, an upgrade and a building need.
use mathlib.Core.List.{Memᴰ}
use wc3env.Prelude.{
  ℕ, ◌+◌, ◌<◌, ◌≡◌, ◌≢◌, ◌⊎◌, ◌↔◌, inl, inr, refl, ap, ◌∙◌, true, false, ◌==◌, ==→eq, ==→ne, List,
  [], ◌∷◌, arith, Bool-cases,
}
use wc3env.Prelude.Int.{ℤ, pos, ◌≤ℤ◌, ◌+ℤ◌}
use wc3env.Prelude.Words.{test_bit}
use wc3env.Features.{Map}
use wc3env.Features.Sets.{has}
use wc3env.Masks.{Reference, FtList, FtUnit, FtUpgrade, items, leb_int, ft_structure, ft_hero}
use wc3env.Masks.Own.{Own}
use wc3env.Masks.Allowed.{
  all_in, affords, requirements_met, cost, hero_ready, can_train, next_level, can_research,
  can_build,
}

module _ (r : Reference) {Real : Type 0} (w : Own Real) where
  -- The stock pays for it, and 30 more that come in before it is ordered; food only where some is needed.
  pub record Affords (gold lumber food : ℤ) : Type 0 where
    pub gold_enough : gold ≤ℤ w.h.gold +ℤ pos 30
    pub lumber_enough : lumber ≤ℤ w.h.lumber +ℤ pos 30
    pub food_enough : (food ≤ℤ pos 0) ⊎ (food ≤ℤ w.food_free)

  abbrev pub Met : FtList → Type 0
  Met l = (x : ℕ) → Memᴰ x (items r l) → has w.have_soon x ≡ true

  -- A unit that is no structure, or a hero; a hero only below three, with what its number needs.
  pub record IsTrainable (u : FtUnit) : Type 0 where
    pub class : test_bit u.flags ft_structure ≡ true → test_bit u.flags ft_hero ≡ true
    pub room : test_bit u.flags ft_hero ≡ true → w.hero_count < 3
    pub tech :
        test_bit u.flags ft_hero ≡ true
        → w.hero_count < u.groups_n
        → Met (r.group (u.groups + w.hero_count))
    pub paid :
        (test_bit u.flags ft_hero ≡ false) ⊎ (w.hero_count ≢ 0) → Affords u.gold u.lumber u.food
    pub first_free :
        test_bit u.flags ft_hero ≡ true → w.hero_count ≡ 0 → Affords (pos 0) (pos 0) u.food
    pub met : Met u.requires

  pub record IsBuildable (u : FtUnit) : Type 0 where
    pub paid : Affords u.gold u.lumber (pos 0)
    pub met : Met u.requires

  pub record IsResearchable (up : FtUpgrade) (level : ℕ) : Type 0 where
    pub left : level < up.levels_n
    pub paid :
        Affords
          (r.upgrade_level (up.levels + level)).gold
          (r.upgrade_level (up.levels + level)).lumber
          (pos 0)
    pub met : Met (r.upgrade_level (up.levels + level)).requires

  all_in-Mem : (m : Map ℕ) (x : ℕ) (ks : List ℕ) → all_in r m ks ≡ true → Memᴰ x ks → has m x ≡ true
  unfolding all_in
  all_in-Mem m x [] h e = elim e [ ]
  all_in-Mem m x (k ∷ ks) h (Memᴰ.head e) = ap (has m) e ∙ ground arith
  all_in-Mem m x (k ∷ ks) h (Memᴰ.tail e) = all_in-Mem m x ks (ground arith) e

  all_in-all :
      (m : Map ℕ) (ks : List ℕ) → ((x : ℕ) → Memᴰ x ks → has m x ≡ true) → all_in r m ks ≡ true
  unfolding all_in
  all_in-all m [] h = refl
  all_in-all m (k ∷ ks) h = rw (h k (Memᴰ.head refl)) (all_in-all m ks (λ x e. h x (Memᴰ.tail e)))

  Met-iff : (l : FtList) → (requirements_met r w l ≡ true) ↔ Met l
  unfolding requirements_met
  Met-iff l =
      (λ h x e. all_in-Mem w.have_soon x (items r l) h e, λ h. all_in-all w.have_soon (items r l) h)

  affords-to : (g l f : ℤ) → affords r w g l f ≡ true → Affords g l f
  unfolding affords
  affords-to g l f h = record {
    gold_enough = ground arith;
    lumber_enough = ground arith;
    food_enough = elim (Bool-cases (leb_int f (pos 0))) [
      | inl e ↦ inl (ground arith)
      | inr e ↦ inr (ground arith)
    ];
  }

  affords-from : (g l f : ℤ) → Affords g l f → affords r w g l f ≡ true
  unfolding affords
  affords-from g l f a = elim a.food_enough [ inl e ↦ ground arith | inr e ↦ ground arith ]

  -- The price of a unit: none of the first hero, and its own of any other unit.
  full_price :
      (u : FtUnit)
      → (test_bit u.flags ft_hero ≡ false) ⊎ (w.hero_count ≢ 0)
      → Affords (cost r w u u.gold) (cost r w u u.lumber) u.food
      → Affords u.gold u.lumber u.food
  unfolding cost
  full_price u c a = record {
    gold_enough = ground (arith, a.gold_enough);
    lumber_enough = ground (arith, a.lumber_enough);
    food_enough = a.food_enough;
  }

  no_price :
      (u : FtUnit)
      → test_bit u.flags ft_hero ≡ true
      → w.hero_count ≡ 0
      → Affords (cost r w u u.gold) (cost r w u u.lumber) u.food
      → Affords (pos 0) (pos 0) u.food
  unfolding cost
  no_price u c z a = record {
    gold_enough = ground (arith, a.gold_enough);
    lumber_enough = ground (arith, a.lumber_enough);
    food_enough = a.food_enough;
  }

  priced :
      (u : FtUnit)
      → ((test_bit u.flags ft_hero ≡ false) ⊎ (w.hero_count ≢ 0) → Affords u.gold u.lumber u.food)
      → (test_bit u.flags ft_hero ≡ true → w.hero_count ≡ 0 → Affords (pos 0) (pos 0) u.food)
      → Affords (cost r w u u.gold) (cost r w u u.lumber) u.food
  unfolding cost
  priced u paid free = elim (Bool-cases (test_bit u.flags ft_hero)) [
    | inr e ↦ rw e (paid (inl e))
    | inl e ↦ elim (Bool-cases (w.hero_count == 0)) [
      | inl z ↦ rw (e, z) (free e (==→eq w.hero_count 0 z))
      | inr z ↦ rw (e, z) (paid (inr (==→ne w.hero_count 0 z)))
    ]
  ]

  -- Below the last level, the next level is the one after `level`.
  next_level-below :
      (up : FtUpgrade) (level : ℕ)
      → level < up.levels_n
      → next_level r w up level ≡ r.upgrade_level (up.levels + level)
  unfolding next_level
  next_level-below up level l = ap (λ k. r.upgrade_level (up.levels + k)) (ground arith)

  pub can_train-to : (u : FtUnit) → can_train r w u ≡ true → IsTrainable u
  unfolding can_train hero_ready
  can_train-to u h = record {
    class = λ s. ground arith;
    room = λ s. ground arith;
    tech = λ s l. (Met-iff _).0 (ground arith);
    paid = λ c. full_price u c (affords-to _ _ _ (ground arith));
    first_free = λ c z. no_price u c z (affords-to _ _ _ (ground arith));
    met = (Met-iff _).0 (ground arith);
  }

  pub can_train-from : (u : FtUnit) → IsTrainable u → can_train r w u ≡ true
  unfolding can_train hero_ready
  can_train-from u t =
      let paid = affords-from _ _ _ (priced u t.paid t.first_free) in
      let met = (Met-iff u.requires).1 t.met in
      ground (
        arith,
        t.class,
        t.room,
        λ (h : test_bit u.flags ft_hero ≡ true) (l : w.hero_count < u.groups_n).
            (Met-iff (r.group (u.groups + w.hero_count))).1 (t.tech h l),
      )

  pub can_build-to : (u : FtUnit) → can_build r w u ≡ true → IsBuildable u
  unfolding can_build
  can_build-to u h = record {
    paid = affords-to _ _ _ (ground arith);
    met = (Met-iff _).0 (ground arith);
  }

  pub can_build-from : (u : FtUnit) → IsBuildable u → can_build r w u ≡ true
  unfolding can_build
  can_build-from u b =
      let paid = affords-from _ _ _ b.paid in let met = (Met-iff u.requires).1 b.met in ground arith

  pub can_research-to :
      (up : FtUpgrade) (level : ℕ) → can_research r w up level ≡ true → IsResearchable up level
  unfolding can_research
  can_research-to up level h =
      let l : level < up.levels_n = ground arith in
      let e = next_level-below up level l in
      record {
        left = l;
        paid = rw e at (
            affords-to (next_level r w up level).gold (next_level r w up level).lumber (pos 0)
              (ground arith));
        met = rw e at ((Met-iff (next_level r w up level).requires).0 (ground arith));
      }

  pub can_research-from :
      (up : FtUpgrade) (level : ℕ) → IsResearchable up level → can_research r w up level ≡ true
  unfolding can_research
  can_research-from up level b =
      let e = next_level-below up level b.left in
      let paid = rw (← e) at (affords-from _ _ _ b.paid) in
      let met = rw (← e) at ((Met-iff (r.upgrade_level (up.levels + level)).requires).1 b.met) in
      ground (arith, b.left)

-- ===== src/Placement/Clear.antt =====
-- wc3hook/placement.c: the site that is chosen.
use wc3env.Prelude.{
  ℕ, ◌≡◌, ◌⊎◌, inl, inr, refl, sym, ap, Bool, true, false, Option, none, some, List, [], ◌∷◌, ◌++◌,
  if◌then◌else◌, ==→eq, arith, Bool-cases, All,
}
use wc3env.Placement.{
  Floats, PendingSite, Request, Search, failed, no_site, site, overlaps, ignored, clear, anchor,
  try_anchor, try_anchors, rings, placement_find,
}

module _ (footprint : ℕ → Option (ℕ × ℕ)) {Real : Type 0} (f : Floats Real)
    (search_once : ℕ → ℕ → Real × Real → Search Real) (r : Request Real) where
  -- What the engine answers from an anchor.
  abbrev pub answer : ℕ × ℕ → Search Real
  answer a = search_once r.worker r.type (anchor footprint f r.type r.x r.y a.0 a.1)

  -- A building there meets none on its way, but that of the worker to be ignored.
  abbrev pub IsFree : Real → Real → Type 0
  IsFree x y =
      All (λ p. (r.ignore ≡ some p.worker) ⊎ (overlaps footprint f r.type x y p ≡ false)) r.pending

  -- The anchor gives no site, or one that is not free.
  abbrev pub IsRefused : ℕ × ℕ → Type 0
  IsRefused a =
      (answer a ≡ no_site) ⊎ ((x : Real) × (y : Real) × (answer a ≡ site x y) × (IsFree x y → ⊥))

  pub data IsPlaced (anchors : List (ℕ × ℕ)) : Search Real → Type 0 where
    placed :
        {x y : Real} (before after : List (ℕ × ℕ)) (a : ℕ × ℕ)
        → anchors ≡ before ++ a ∷ after
        → All IsRefused before
        → answer a ≡ site x y
        → IsFree x y
        → IsPlaced anchors (site x y)
    nowhere : All IsRefused anchors → IsPlaced anchors no_site
    stopped :
        (before after : List (ℕ × ℕ)) (a : ℕ × ℕ)
        → anchors ≡ before ++ a ∷ after
        → All IsRefused before
        → answer a ≡ failed
        → IsPlaced anchors failed

  ignored-worker :
      (o : Option ℕ) (p : PendingSite Real) → ignored footprint f o p ≡ true → o ≡ some p.worker
  ignored-worker none p h = absurd (ground arith)
  ignored-worker (some w) p h = ap some (sym (==→eq p.worker w h))

  worker-ignored :
      (o : Option ℕ) (p : PendingSite Real) → o ≡ some p.worker → ignored footprint f o p ≡ true
  worker-ignored none p h = absurd (ground arith)
  worker-ignored (some w) p h = ground arith

  clear-to :
      (x y : Real) (ps : List (PendingSite Real))
      → clear footprint f r.type r.ignore x y ps ≡ true
      → All (λ p. (r.ignore ≡ some p.worker) ⊎ (overlaps footprint f r.type x y p ≡ false)) ps
  unfolding clear
  clear-to x y [] h = tt
  clear-to x y (p ∷ ps) h = (
    elim (Bool-cases (ignored footprint f r.ignore p)) [
      | inl i ↦ inl (ignored-worker r.ignore p i)
      | inr i ↦ inr (ground arith)
    ],
    clear-to x y ps (ground arith),
  )

  clear-from :
      (x y : Real) (ps : List (PendingSite Real))
      → All (λ p. (r.ignore ≡ some p.worker) ⊎ (overlaps footprint f r.type x y p ≡ false)) ps
      → clear footprint f r.type r.ignore x y ps ≡ true
  unfolding clear
  clear-from x y [] h = refl
  clear-from x y (p ∷ ps) h = elim h.0 [
    | inl i ↦ rw (worker-ignored r.ignore p i) (clear-from x y ps h.1)
    | inr i ↦
        let rest = clear-from x y ps h.1 in
        elim (Bool-cases (ignored footprint f r.ignore p)) [
          | inl g ↦ rw g rest
          | inr g ↦ rw g (rw i rest)
        ]
  ]

  -- What one anchor comes to.
  data IsTried (a : ℕ × ℕ) : Search Real → Type 0 where
    gives : {x y : Real} → answer a ≡ site x y → IsFree x y → IsTried a (site x y)
    refuses : IsRefused a → IsTried a no_site
    fails : answer a ≡ failed → IsTried a failed

  try_anchor-IsTried : (a : ℕ × ℕ) → IsTried a (try_anchor footprint f search_once r a)
  unfolding try_anchor
  try_anchor-IsTried a = of_answer (answer a) refl
    where
      of_clear :
          (x y : Real) (b : Bool)
          → answer a ≡ site x y
          → clear footprint f r.type r.ignore x y r.pending ≡ b
          → IsTried a (if b then site x y else no_site)
      of_clear x y true e c = gives e (clear-to x y r.pending c)
      of_clear x y false e c =
          refuses (inr (x, y, e, λ g. ground (arith, c, clear-from x y r.pending g)))

      of_answer :
          (s : Search Real)
          → answer a ≡ s
          → IsTried a (elim s as (λ s. Search Real) [
            | failed ↦ failed
            | no_site ↦ no_site
            | site sx sy ↦
                if clear footprint f r.type r.ignore sx sy r.pending then site sx sy else no_site
          ])
      of_answer failed e = fails e
      of_answer no_site e = refuses (inl e)
      of_answer (site x y) e = of_clear x y _ e refl

  IsPlaced-next :
      (a : ℕ × ℕ) (rest : List (ℕ × ℕ)) (s : Search Real)
      → IsRefused a
      → IsPlaced rest s
      → IsPlaced (a ∷ rest) s
  IsPlaced-next a rest s h (placed before after b e all q g) =
      placed (a ∷ before) after b (ap (λ l. a ∷ l) e) (h, all) q g
  IsPlaced-next a rest s h (nowhere all) = nowhere (h, all)
  IsPlaced-next a rest s h (stopped before after b e all q) =
      stopped (a ∷ before) after b (ap (λ l. a ∷ l) e) (h, all) q

  tried_then :
      (a : ℕ × ℕ) (rest : List (ℕ × ℕ)) (s out : Search Real)
      → IsTried a s
      → IsPlaced rest out
      → IsPlaced (a ∷ rest) (elim s as (λ s. Search Real) [
        | failed ↦ failed
        | no_site ↦ out
        | site sx sy ↦ site sx sy
      ])
  tried_then a rest s out (gives e g) p = placed [] rest a refl tt e g
  tried_then a rest s out (refuses h) p = IsPlaced-next a rest out h p
  tried_then a rest s out (fails e) p = stopped [] rest a refl tt e

  try_anchors-IsPlaced :
      (anchors : List (ℕ × ℕ)) → IsPlaced anchors (try_anchors footprint f search_once r anchors)
  unfolding try_anchors
  try_anchors-IsPlaced [] = nowhere tt
  try_anchors-IsPlaced (a ∷ rest) =
      tried_then a rest _ _ (try_anchor-IsTried a) (try_anchors-IsPlaced rest)

  -- The site of a building is the engine's answer from the first of the anchors, in rings outward from
  -- the point that was asked for, whose site overlaps none that another worker is on its way to, but for
  -- the worker to be ignored. There is no site only if every anchor gives none or one that overlaps; and
  -- the search fails only if the engine's does, from an anchor before which none gave a site.
  pub placement_find-IsPlaced : IsPlaced (rings 0 4) (placement_find footprint f search_once r)
  unfolding placement_find
  placement_find-IsPlaced = try_anchors-IsPlaced (rings 0 4)

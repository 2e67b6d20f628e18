-- ===== src/Events/Rings.antt =====
-- The rings as lossy queues: what they give is what was logged, less the oldest past the capacity,
-- however the counts wrap.
use wc3env.Prelude.{
  ℕ, zero, suc, ◌+◌, ◌-◌, ◌%◌, ◌^◌, ◌≤◌, ◌<◌, ◌≡◌, ◌≢◌, refl, ◌∙◌, ap, ap₂, Option, some, List, [],
  ◌∷◌, ◌++◌, arith, if◌then◌else◌, ◌==◌, eq→==, ne→==, subst, length-drop, drop-append, length,
  length-append, drop,
}
use wc3env.Prelude.Words.{add32}
use wc3env.Events.{Ring, push, collect, lost_count, first, gather}

-- `cap` cells, as many as fit into the range of the counts a whole number of times: entries less
-- than `cap` apart stand in different cells.
pub record IsCapacity (cap : ℕ) : Type 0 where
  pub positive : 0 < cap
  pub within : cap < 2 ^ 32
  pub apart : (a b : ℕ) → a < b → b < a + cap → a % 2 ^ 32 % cap ≢ b % 2 ^ 32 % cap

module _ {A : Type 0} (cap : ℕ) (ok : IsCapacity cap) where
  -- The cells hold these entries, from the `k`-th logged on.
  abbrev Holds : (ℕ → A) → ℕ → List A → Type 0
  Holds cells k [] = Unit
  Holds cells k (x ∷ xs) = (cells (k % 2 ^ 32 % cap) ≡ x) × Holds cells (k + 1) xs

  -- The entries logged and not given yet are `xs`, of which the ring keeps the last `cap`.
  pub record IsLog (r : Ring A) (xs : List A) : Type 0 where
    pub given : ℕ
    pub cursor : r.cursor ≡ given % 2 ^ 32
    pub head : r.head ≡ (given + length xs) % 2 ^ 32
    pub kept : Holds r.cells (given + (length xs - cap)) (drop (length xs - cap) xs)
    pub few : length xs < 2 ^ 32

  Holds-at : {j k : ℕ} (cells : ℕ → A) (xs : List A) → j ≡ k → Holds cells j xs → Holds cells k xs
  Holds-at cells xs e h = subst (λ n. Holds cells n xs) e h

  Holds-nothing : (cells : ℕ → A) (k s : ℕ) → Holds cells (k + s) (drop s [])
  Holds-nothing cells k zero = tt
  Holds-nothing cells k (suc s) = tt

  -- Fewer of the oldest.
  Holds-later :
      (cells : ℕ → A) (k s t : ℕ) (xs : List A)
      → s ≤ t
      → Holds cells (k + s) (drop s xs)
      → Holds cells (k + t) (drop t xs)
  Holds-later cells k s t [] l h = Holds-nothing cells k t
  Holds-later cells k zero zero (x ∷ xs) l h = h
  Holds-later cells k (suc s) zero (x ∷ xs) l h = absurd (omega arith)
  Holds-later cells k zero (suc t) (x ∷ xs) l h =
      Holds-at cells (drop t xs) (omega arith)
        (Holds-later cells (k + 1) zero t xs (omega arith) (Holds-at cells xs (omega arith) h.1))
  Holds-later cells k (suc s) (suc t) (x ∷ xs) l h =
      Holds-at cells (drop t xs) (omega arith) (
        Holds-later cells (k + 1) s t xs (omega arith) (Holds-at cells (drop s xs) (omega arith) h))

  Holds-snoc :
      (cells : ℕ → A) (k : ℕ) (xs : List A) (x : A)
      → Holds cells k xs
      → cells ((k + length xs) % 2 ^ 32 % cap) ≡ x
      → Holds cells k (xs ++ x ∷ [])
  Holds-snoc cells k [] x h e = (ap (λ (n : ℕ). cells (n % 2 ^ 32 % cap)) (omega arith) ∙ e, tt)
  Holds-snoc cells k (y ∷ ys) x h e = (
    h.0,
    Holds-snoc cells (k + 1) ys x h.1 (ap (λ (n : ℕ). cells (n % 2 ^ 32 % cap)) (omega arith) ∙ e),
  )

  -- A write to the cell of a later entry.
  Holds-write :
      (cells : ℕ → A) (k : ℕ) (xs : List A) (h : ℕ) (x : A)
      → k + length xs ≤ h
      → h < k + cap
      → Holds cells k xs
      → Holds (λ i. if i == h % 2 ^ 32 % cap then x else cells i) k xs
  Holds-write cells k [] h x a b hs = tt
  Holds-write cells k (y ∷ ys) h x a b hs = (
    rw (ne→== _ _ (ok.apart k h (omega arith) b)) hs.0,
    Holds-write cells (k + 1) ys h x (omega arith) (omega arith) hs.1,
  )

  collect_at :
      (fuel : ℕ) (cells : ℕ → A) {i j k l : ℕ} {o : Option (List A)}
      → i ≡ k
      → j ≡ l
      → collect cap fuel cells k l ≡ o
      → collect cap fuel cells i j ≡ o
  collect_at fuel cells p q e = ap₂ (λ m n. collect cap fuel cells m n) p q ∙ e

  collect_lem :
      (fuel : ℕ) (cells : ℕ → A) (k : ℕ) (xs : List A)
      → length xs ≤ fuel
      → length xs < 2 ^ 32
      → Holds cells k xs
      → collect cap fuel cells (k % 2 ^ 32) ((k + length xs) % 2 ^ 32) ≡ some xs
  unfolding collect
  collect_lem zero cells k [] l f h = ground arith
  collect_lem zero cells k (x ∷ xs) l f h = absurd (omega arith)
  collect_lem (suc fuel) cells k [] l f h =
      rw (eq→== (k % 2 ^ 32) ((k + 0) % 2 ^ 32) (omega arith)) refl
  collect_lem (suc fuel) cells k (x ∷ xs) l f h =
      let rest = collect_lem fuel cells (k + 1) xs (omega arith) (omega arith) h.1 in
      let e : collect cap fuel cells (add32 (k % 2 ^ 32) 1) ((k + suc (length xs)) % 2 ^ 32)
          ≡ some xs =
        collect_at fuel cells (omega arith) (omega arith) rest in
      rw (ne→== (k % 2 ^ 32) ((k + suc (length xs)) % 2 ^ 32) (omega arith), e)
        (ap (λ y. some (y ∷ xs)) h.0)

  length_snoc : (xs : List A) (x : A) → length (xs ++ x ∷ []) ≡ length xs + 1
  length_snoc xs x = length-append xs (x ∷ [])

  -- Logging an entry adds it to the log, while fewer than 2 ^ 32 entries wait to be given.
  pub push-IsLog :
      (x : A) (r : Ring A) (xs : List A)
      → length xs + 1 < 2 ^ 32
      → IsLog r xs
      → IsLog (push cap x r) (xs ++ x ∷ [])
  unfolding push
  push-IsLog x r xs f h =
      let n = length xs in
      let m = n + 1 - cap in
      let at = (h.given + n) % 2 ^ 32 % cap in
      let tail : Holds r.cells (h.given + m) (drop m xs) =
        Holds-later r.cells h.given (n - cap) m xs (omega arith) h.kept in
      let written : Holds (λ i. if i == at then x else r.cells i) (h.given + m) (drop m xs) =
        Holds-write r.cells (h.given + m) (drop m xs) (h.given + n) x
          (omega (arith, length-drop m xs, ok.positive)) (omega (arith, ok.positive)) tail in
      let same : h.given + m + length (drop m xs) ≡ h.given + n =
        omega (arith, length-drop m xs, ok.positive) in
      let full =
        Holds-snoc (λ i. if i == at then x else r.cells i) (h.given + m) (drop m xs) x written
          (rw (eq→== _ at (ap (λ (i : ℕ). i % 2 ^ 32 % cap) same)) refl) in
      record {
        given = h.given;
        cursor = h.cursor;
        head = omega (arith, h.head, length-append xs (x ∷ []));
        kept =
            rw (length_snoc xs x, drop-append m xs (x ∷ []) (omega (arith, ok.positive)), h.head)
              full;
        few = omega (arith, length-append xs (x ∷ []));
      }

  count_lem : (r : Ring A) (xs : List A) → IsLog r xs → lost_count cap r ≡ length xs - cap
  unfolding lost_count
  count_lem r xs h = ground (arith, h.head, h.cursor, h.few)

  first_lem :
      (r : Ring A) (xs : List A)
      → (h : IsLog r xs) → first cap r ≡ (h.given + (length xs - cap)) % 2 ^ 32
  unfolding first
  first_lem r xs h = ground (arith, count_lem r xs h, h.head, h.cursor, h.few, ok.within)

  -- Giving the entries out gives the log but for its oldest past the capacity, in order, counts what
  -- is lost, and leaves nothing to be given.
  pub gather-IsLog :
      (r : Ring A) (xs : List A)
      → IsLog r xs
      → ((gather cap r).0 ≡ some (drop (length xs - cap) xs))
        × ((gather cap r).1 ≡ length xs - cap)
        × IsLog (gather cap r).2 []
  unfolding gather
  gather-IsLog r xs h = (
    collect_at cap r.cells (first_lem r xs h)
        (omega (arith, h.head, length-drop (length xs - cap) xs))
        (collect_lem cap r.cells (h.given + (length xs - cap)) (drop (length xs - cap) xs)
          (omega (arith, length-drop (length xs - cap) xs))
          (omega (arith, length-drop (length xs - cap) xs, h.few)) h.kept),
    count_lem r xs h,
    record {
      given = h.given + length xs;
      cursor = h.head;
      head = omega (arith, h.head);
      kept = Holds-nothing r.cells (h.given + length xs) (0 - cap);
      few = omega arith;
    },
  )

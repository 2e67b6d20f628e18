-- ===== src/Rpc/Binary/Layout.antt =====
-- wc3hook/rpc.c: where a job's observations and features lie in the mapping.
use wc3env.Prelude.{
  ℕ, ◌+◌, ◌-◌, ◌%◌, ◌≤◌, ◌≡◌, ◌≢◌, inl, inr, refl, ap, Bool, true, false, List, [], ◌∷◌, ◌++◌, ◌==◌,
  if◌then◌else◌, arith, Bool-cases, ==→ne, ne→==, All,
}
use wc3env.Rpc.Binary.{
  map_bytes, Writers, IsBounded, Entry, entry_at, Seen, Written, Part, part, round_up,
  write_features, write_player, write_players, binary_job,
}

-- The ranges of the mapping that an entry names: offsets and sizes.
abbrev pub range : ℕ → ℕ → List (ℕ × ℕ)
range offset size = if size == 0 then [] else (offset, size) ∷ []

abbrev pub ranges : List Entry → List (ℕ × ℕ)
ranges [] = []
ranges (e ∷ es) = range e.offset e.size ++ range e.features_offset e.features_size ++ ranges es

-- Ranges from `at` on, one after the other, aligned to 8 bytes, within the mapping.
abbrev pub IsLaid : ℕ → List (ℕ × ℕ) → Type 0
IsLaid at [] = Unit
IsLaid at ((offset, size) ∷ rs) =
    (at ≤ offset) × (offset % 8 ≡ 0) × (offset + size ≤ map_bytes) × IsLaid (offset + size) rs

-- What one player's part is.
data IsPart (at p : ℕ) : Part → Type 0 where
  nothing : (s : Seen) → IsPart at p (part (entry_at p 0 0) at s false)
  observed :
      (size after : ℕ) (s : Seen) (g : Bool)
      → size ≢ 0
      → at + size ≤ after
      → after ≤ map_bytes
      → after % 8 ≡ 0
      → IsPart at p (part (entry_at p at size) after s g)
  featured :
      (size fat fsize after : ℕ) (s : Seen)
      → size ≢ 0
      → fsize ≢ 0
      → at + size ≤ fat
      → fat % 8 ≡ 0
      → fat + fsize ≤ after
      → after ≤ map_bytes
      → after % 8 ≡ 0
      → IsPart at p (
          part
            (record {
              player = p;
              offset = at;
              size = size;
              features_offset = fat;
              features_size = fsize;
            })
            after
            s
            true)

round_up_fits :
    (at size : ℕ)
    → at % 8 ≡ 0
    → at ≤ map_bytes
    → size ≤ map_bytes - at
    → (at + size ≤ at + round_up size)
      × (at + round_up size ≤ map_bytes)
      × ((at + round_up size) % 8 ≡ 0)
round_up_fits at size h8 hm h = (omega (arith, h8), omega (arith, h8), omega (arith, h8))

IsLaid-from : (at later : ℕ) (rs : List (ℕ × ℕ)) → at ≤ later → IsLaid later rs → IsLaid at rs
IsLaid-from at later [] h l = tt
IsLaid-from at later ((offset, size) ∷ rs) h (a, b, c, d) = (omega (arith, h, a), b, c, d)

-- The players of entries, and whether each has an observation.
abbrev pub players_of : List Entry → List ℕ
players_of [] = []
players_of (e ∷ es) = e.player ∷ players_of es

abbrev pub Observed : Entry → Type 0
Observed e = e.size ≢ 0

-- What is written of the players `ps` from `at` on.
pub data IsWritten (at : ℕ) (ps : List ℕ) (w : Written) : Type 0 where
  is_written :
      IsLaid at (ranges w.entries)
      → (w.complete ≡ true → (players_of w.entries ≡ ps) × All Observed w.entries)
      → IsWritten at ps w

and_part :
    (at p : ℕ) (ps : List ℕ) (pt : Part) (rest : Written)
    → at % 8 ≡ 0
    → IsPart at p pt
    → (pt.after ≤ map_bytes → pt.after % 8 ≡ 0 → IsWritten pt.after ps rest)
    → IsWritten at (p ∷ ps) (
        if pt.good
        then record rest { entries = pt.entry ∷ rest.entries }
        else record { entries = pt.entry ∷ []; seen = pt.left; complete = false })
and_part at p ps _ rest h8 (nothing s) k = is_written tt (λ e. absurd (ground arith))
and_part at p ps _ rest h8 (observed size after s false hs ha hm ha8) k =
    is_written (rw (ne→== size 0 hs) (omega arith, h8, omega arith, tt))
      (λ e. absurd (ground arith))
and_part at p ps _ rest h8 (observed size after s true hs ha hm ha8) k = with_rest (k hm ha8)
  where
    with_rest :
        IsWritten after ps rest
        → IsWritten at (p ∷ ps) (record rest { entries = entry_at p at size ∷ rest.entries })
    with_rest (is_written l c) =
        is_written
          (rw (ne→== size 0 hs)
            (omega arith, h8, omega arith, IsLaid-from (at + size) after _ ha l))
          (λ e. (ap (λ t. p ∷ t) (c e).0, (hs, (c e).1)))
and_part at p ps _ rest h8 (featured size fat fsize after s hs hf ha hf8 hb hm ha8) k =
    with_rest (k hm ha8)
  where
    with_rest :
        IsWritten after ps rest
        → IsWritten at (p ∷ ps) (record rest {
          entries =
              record {
                player = p;
                offset = at;
                size = size;
                features_offset = fat;
                features_size = fsize;
              }
              ∷ rest.entries;
        })
    with_rest (is_written l c) =
        is_written
          (rw (ne→== size 0 hs, ne→== fsize 0 hf)
            (
              omega arith,
              h8,
              omega arith,
              (ha, hf8, omega arith, IsLaid-from (fat + fsize) after _ hb l),
            ))
          (λ e. (ap (λ t. p ∷ t) (c e).0, (hs, (c e).1)))

module _ (o : Writers) (bounded : IsBounded o) where
  write_features-IsPart :
      (p at size after : ℕ) (s : Seen)
      → size ≢ 0
      → at + size ≤ after
      → after ≤ map_bytes
      → after % 8 ≡ 0
      → IsPart at p (write_features o p at size after s)
  unfolding write_features
  write_features-IsPart p at size after s hs ha hm h8 =
      elim (Bool-cases (o.feat_step p at size (s.has_last p))) [
        | inl e ↦ rw e (observed size after _ false hs ha hm h8)
        | inr e ↦ elim (Bool-cases (o.feat_write (map_bytes - after) p == 0)) [
          | inl z ↦ rw (e, z) (observed size after _ false hs ha hm h8)
          | inr z ↦
              rw (e, z)
                (let fits =
                    round_up_fits after (o.feat_write (map_bytes - after) p) h8 hm
                      (bounded.feat_fits (map_bytes - after) p) in
                  featured size after _ _ _ hs (==→ne _ 0 z) ha h8 fits.0 fits.1 fits.2)
        ]
      ]

  write_player-IsPart :
      (p at : ℕ) (s : Seen) → at ≤ map_bytes → at % 8 ≡ 0 → IsPart at p (write_player o p at s)
  unfolding write_player
  write_player-IsPart p at s hm h8 =
      elim (Bool-cases (o.obs_write (map_bytes - at) p (s.obs_seq p) == 0)) [
        | inl z ↦ rw z (nothing _)
        | inr z ↦
            let fits =
              round_up_fits at (o.obs_write (map_bytes - at) p (s.obs_seq p)) h8 hm
                (bounded.obs_fits (map_bytes - at) p (s.obs_seq p)) in
            elim (Bool-cases (o.features p)) [
              | inl e ↦
                  rw (z, e) (write_features-IsPart p at _ _ _ (==→ne _ 0 z) fits.0 fits.1 fits.2)
              | inr e ↦ rw (z, e) (observed _ _ _ true (==→ne _ 0 z) fits.0 fits.1 fits.2)
            ]
      ]

  write_players-IsWritten :
      (ps : List ℕ) (at : ℕ) (s : Seen)
      → at ≤ map_bytes
      → at % 8 ≡ 0
      → IsWritten at ps (write_players o at ps s)
  unfolding write_players
  write_players-IsWritten [] at s hm h8 = is_written tt (λ e. (refl, tt))
  write_players-IsWritten (p ∷ ps) at s hm h8 =
      and_part at p ps (write_player o p at s) _ h8 (write_player-IsPart p at s hm h8)
        λ ha ha8. write_players-IsWritten ps _ _ ha ha8

  -- The observations and the features that a job writes lie one after the other in the mapping, each
  -- from a multiple of 8 on and none over its end, also where the job stops early. A complete job has an
  -- observation of each of its players, in their order. The writers keep to the room that they are
  -- given.
  pub binary_job-IsWritten : (ps : List ℕ) (s : Seen) → IsWritten 0 ps (binary_job o ps s)
  unfolding binary_job
  binary_job-IsWritten ps s = write_players-IsWritten ps 0 s (omega arith) (omega arith)

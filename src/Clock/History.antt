-- ===== src/Clock/History.antt =====
-- Histories of the clock: changes of speed and freezes, each at a reading of the real counter.
use wc3env.Prelude.{
  ◌%◌, ◌≡◌, refl, ap, Bool, true, false, not, some, List, [], ◌∷◌, arith, Bool-cases, inl, inr,
}
use wc3env.Prelude.Int.{ℤ, ◌-ℤ◌, ◌≤ℤ◌, pos_part, neg_part, int_laws}
use wc3env.Clock.{
  Double, ClockAnchor, Clock, virt_at, reanchor, anchor_write, set_speed, freeze, signal, init,
}
use wc3env.Clock.Anchor.{virt_at-running, virt_at-frozen, set_speed-continuous, freeze-continuous}

module _ (D : Double) where
  open D use {Speed, scale, scale_mono}

  pub data Write : Type 0 where
    speeds : Speed → Write
    freezes : Bool → Write

  pub apply : Write → ℤ → Clock D → Clock D
  apply (speeds s) real c = set_speed D s real c
  apply (freezes on) real c = freeze D on real c

  pub run : List (Write × ℤ) → Clock D → Clock D
  run [] c = c
  run ((w, real) ∷ ws) c = run ws (apply w real c)

  -- The real counter does not go back, from `q` over the writes to `r`.
  abbrev pub Rising : ℤ → List (Write × ℤ) → ℤ → Type 0
  Rising q [] r = q ≤ℤ r
  Rising q ((w, p) ∷ ws) r = (q ≤ℤ p) × Rising p ws r

  virt_at-mono : (a : ClockAnchor D) (q r : ℤ) → q ≤ℤ r → virt_at D a q ≤ℤ virt_at D a r
  virt_at-mono a q r h = elim (Bool-cases a.frozen) [
    | inl e ↦ rw (virt_at-frozen D a q e, virt_at-frozen D a r e) (omega arith)
    | inr e ↦
        rw (virt_at-running D a q e, virt_at-running D a r e)
          (omega (int_laws, scale_mono a.speed (q -ℤ a.real0) (r -ℤ a.real0) (omega int_laws)))
  ]

  apply-continuous :
      (w : Write) (real : ℤ) (c : Clock D)
      → virt_at D (apply w real c).anchor real ≡ virt_at D c.anchor real
  unfolding apply
  apply-continuous (speeds s) real c = set_speed-continuous D s real c
  apply-continuous (freezes on) real c = freeze-continuous D on real c

  -- Over any history of speed changes and freezes, the virtual clock that is read between them never goes
  -- back while the real counter does not: from before the first of them to after the last, where none is
  -- under way. A reading that falls between the moment at which a change reads the counter and the one at
  -- which it publishes is left out.
  pub run-monotone :
      (ws : List (Write × ℤ)) (q r : ℤ) (c : Clock D)
      → Rising q ws r
      → virt_at D c.anchor q ≤ℤ virt_at D (run ws c).anchor r
  unfolding run
  run-monotone [] q r c h = virt_at-mono c.anchor q r h
  run-monotone ((w, p) ∷ ws) q r c h = omega (
    arith,
    virt_at-mono c.anchor q p h.0,
    ap pos_part (apply-continuous w p c),
    ap neg_part (apply-continuous w p c),
    run-monotone ws p r (apply w p c) h.1,
  )

  -- The copies that are read without the anchor agree with it, the event `g_running` is set exactly
  -- while the clock runs, and no write is under way.
  pub record IsPublished (c : Clock D) : Type 0 where
    pub speed : c.g_speed ≡ c.anchor.speed
    pub frozen : c.g_frozen ≡ c.anchor.frozen
    pub event : c.running ≡ some (not c.anchor.frozen)
    pub even : c.anchor_seq % 2 ≡ 0

  init-IsPublished : (real : ℤ) → IsPublished (init D real)
  unfolding init
  init-IsPublished real = record { speed = refl; frozen = refl; event = refl; even = refl }

  set_speed-IsPublished :
      (s : Speed) (real : ℤ) (c : Clock D) → IsPublished c → IsPublished (set_speed D s real c)
  unfolding set_speed anchor_write reanchor
  set_speed-IsPublished s real c p = record {
    speed = refl;
    frozen = refl;
    event = p.event;
    even = omega (arith, p.even);
  }

  freeze-IsPublished :
      (on : Bool) (real : ℤ) (c : Clock D) → IsPublished c → IsPublished (freeze D on real c)
  unfolding freeze anchor_write
  freeze-IsPublished true real c p = elim (Bool-cases c.anchor.frozen) [
    | inl e ↦ simp e p
    | inr e ↦ simp e (record {
      speed = refl;
      frozen = refl;
      event = ap (signal D false) p.event;
      even = omega (arith, p.even);
    })
  ]
  freeze-IsPublished false real c p = elim (Bool-cases c.anchor.frozen) [
    | inl e ↦ simp e (record {
      speed = refl;
      frozen = refl;
      event = ap (signal D true) p.event;
      even = omega (arith, p.even);
    })
    | inr e ↦ simp e p
  ]

  -- After any history of speed changes and freezes from a published clock, the copies that are read
  -- without the anchor still agree with it, the event `g_running` is set exactly while the clock
  -- runs, and no write is under way.
  pub run-IsPublished :
      (ws : List (Write × ℤ)) (c : Clock D) → IsPublished c → IsPublished (run ws c)
  unfolding run apply
  run-IsPublished [] c p = p
  run-IsPublished ((speeds s, real) ∷ ws) c p =
      run-IsPublished ws (set_speed D s real c) (set_speed-IsPublished s real c p)
  run-IsPublished ((freezes on, real) ∷ ws) c p =
      run-IsPublished ws (freeze D on real c) (freeze-IsPublished on real c p)

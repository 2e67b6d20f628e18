-- ===== src/Clock/Anchor.antt =====
-- The virtual clock is continuous where it is rewritten, stands while it is frozen, and never goes
-- back.
use wc3env.Prelude.{◌≡◌, refl, sym, ◌∙◌, Bool, true, false, Bool-cases, inl, inr}
use wc3env.Prelude.Int.{ℤ, pos, ◌+ℤ◌, ◌-ℤ◌, int_laws}
use wc3env.Clock.{Double, ClockAnchor, Clock, virt_at, reanchor, anchor_write, set_speed, freeze}

module _ (D : Double) where
  open D use {Speed, scale, scale_zero, scale_mono}

  sub_self : (a : ℤ) → a -ℤ a ≡ pos 0
  sub_self a = omega int_laws

  add_zero : (a : ℤ) → a +ℤ pos 0 ≡ a
  add_zero a = omega int_laws

  -- An anchor at `now` reads its own virtual time there, at any speed.
  anchored : (v : ℤ) (s : Speed) (now : ℤ) → v +ℤ scale s (now -ℤ now) ≡ v
  anchored v s now = rw (sub_self now, scale_zero s, add_zero v)

  -- A running anchor, rewritten at its own reading.
  pub virt_at-running :
      (a : ClockAnchor D) (now : ℤ)
      → a.frozen ≡ false
      → virt_at D a now ≡ a.virt0 +ℤ scale a.speed (now -ℤ a.real0)
  unfolding virt_at
  virt_at-running a now e = rw e

  pub virt_at-frozen :
      (a : ClockAnchor D) (now : ℤ)
      → a.frozen ≡ true
      → virt_at D a now ≡ a.virt0 +ℤ scale a.speed (a.frozen_at -ℤ a.real0)
  unfolding virt_at
  virt_at-frozen a now e = rw e

  virt_at-reanchor :
      (a : ClockAnchor D) (s : Speed) (real : ℤ)
      → virt_at D (record (reanchor D real a) { speed = s }) real ≡ virt_at D a real
  unfolding reanchor
  virt_at-reanchor a s real = elim (Bool-cases a.frozen) [
    | inl e ↦
        virt_at-frozen _ real e
        ∙ simp e (anchored _ s a.frozen_at)
        ∙ virt_at-frozen a a.frozen_at e
        ∙ sym (virt_at-frozen a real e)
    | inr e ↦ virt_at-running _ real e ∙ simp e (anchored _ s real)
  ]

  -- A change of speed moves the virtual clock neither forward nor back.
  pub set_speed-continuous :
      (s : Speed) (real : ℤ) (c : Clock D)
      → virt_at D (set_speed D s real c).anchor real ≡ virt_at D c.anchor real
  unfolding set_speed anchor_write
  set_speed-continuous s real c = virt_at-reanchor c.anchor s real

  virt_at-stop :
      (a : ClockAnchor D) (real : ℤ)
      → a.frozen ≡ false
      → virt_at D (record a { frozen_at = real; frozen = true }) real ≡ virt_at D a real
  virt_at-stop a real e = virt_at-frozen _ real refl ∙ sym (virt_at-running a real e)

  virt_at-start :
      (a : ClockAnchor D) (real : ℤ)
      → a.frozen ≡ true
      → virt_at D (record (reanchor D real a) { frozen = false; real0 = real }) real
        ≡ virt_at D a real
  unfolding reanchor
  virt_at-start a real e =
      virt_at-running (record (reanchor D real a) { frozen = false; real0 = real }) real refl
      ∙ simp e (anchored _ a.speed real)
      ∙ virt_at-frozen a a.frozen_at e
      ∙ sym (virt_at-frozen a real e)

  -- Freezing the clock and starting it again move the virtual clock neither forward nor back.
  pub freeze-continuous :
      (on : Bool) (real : ℤ) (c : Clock D)
      → virt_at D (freeze D on real c).anchor real ≡ virt_at D c.anchor real
  unfolding freeze anchor_write
  freeze-continuous true real c = elim (Bool-cases c.anchor.frozen) [
    | inl e ↦ simp e
    | inr e ↦ simp e (virt_at-stop c.anchor real e)
  ]
  freeze-continuous false real c = elim (Bool-cases c.anchor.frozen) [
    | inl e ↦ simp e (virt_at-start c.anchor real e)
    | inr e ↦ simp e
  ]

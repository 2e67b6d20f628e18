-- ===== src/Clock.antt =====
-- wc3hook/clock.c: the virtual clock that the game's timers read, its speed and its freeze. Speeds
-- are C doubles, so their type and the two conversions with them are parameters.
pub mod Units
pub mod Anchor
pub mod History
pub mod Waits
pub mod Seqlock
pub mod Tests
use wc3env.Prelude.{
  ℕ, ◌+◌, ◌≤◌, ◌≡◌, Bool, true, false, not, ◌&&◌, Option, none, some, if◌then◌else◌,
}
use wc3env.Prelude.Int.{ℤ, pos, ◌+ℤ◌, ◌-ℤ◌, ◌≤ℤ◌}

-- `double` as the clock uses it, for positive speeds: `(LONGLONG)(ticks * speed)`,
-- `(DWORD)(ms / speed)` and `speed > 1.0`.
pub record Double : Type 1 where
  pub Speed : Type 0
  pub one : Speed
  pub above_one : Speed → Bool
  pub scale : Speed → ℤ → ℤ
  pub cut : Speed → ℕ → ℕ
  pub scale_zero : (s : Speed) → scale s (pos 0) ≡ pos 0
  pub scale_mono : (s : Speed) (a b : ℤ) → a ≤ℤ b → scale s a ≤ℤ scale s b
  pub cut_le : (s : Speed) (ms : ℕ) → above_one s ≡ true → cut s ms ≤ ms

module _ (D : Double) where
  open D use {Speed, one, scale}

  pub record ClockAnchor : Type 0 where
    pub real0 : ℤ
    pub virt0 : ℤ
    pub frozen_at : ℤ
    pub speed : Speed
    pub frozen : Bool

  -- The published anchor with its sequence number, the copies of two of its fields, and the state of
  -- the event `g_running`, once there is one.
  pub record Clock : Type 0 where
    pub anchor : ClockAnchor
    pub anchor_seq : ℕ
    pub g_speed : Speed
    pub g_frozen : Bool
    pub running : Option Bool

  pub virt_at : ClockAnchor → ℤ → ℤ
  virt_at a now =
      let at = if a.frozen then a.frozen_at else now in a.virt0 +ℤ scale a.speed (at -ℤ a.real0)

  -- The virtual counter, of the anchor that is published.
  pub virt_qpc : Clock → ℤ → ℤ
  virt_qpc c now = virt_at c.anchor now

  -- `real` is the reading of the real counter.
  pub reanchor : ℤ → ClockAnchor → ClockAnchor
  reanchor real a =
      let now = if a.frozen then a.frozen_at else real in
      record a { real0 = now; virt0 = virt_at a now }

  pub anchor_write : ClockAnchor → Clock → Clock
  anchor_write a c = record c {
    anchor = a;
    anchor_seq = c.anchor_seq + 1 + 1;
    g_speed = a.speed;
    g_frozen = a.frozen;
  }

  pub set_speed : Speed → ℤ → Clock → Clock
  set_speed s real c = anchor_write (record (reanchor real c.anchor) { speed = s }) c

  abbrev pub signal : Bool → Option Bool → Option Bool
  signal b none = none
  signal b (some _) = some b

  pub freeze : Bool → ℤ → Clock → Clock
  freeze on real c =
      let a = c.anchor in
      if on && not a.frozen
      then record (anchor_write (record a { frozen_at = real; frozen = true }) c) {
        running = signal false c.running;
      }
      else if not on && a.frozen
      then record (anchor_write (record (reanchor real a) { frozen = false; real0 = real }) c) {
        running = signal true c.running;
      }
      else c

  -- What `clock_init_hooks` publishes, with the events created.
  pub init : ℤ → Clock
  init real = record {
    anchor = record { real0 = real; virt0 = real; frozen_at = pos 0; speed = one; frozen = false };
    anchor_seq = 2;
    g_speed = one;
    g_frozen = false;
    running = some true;
  }

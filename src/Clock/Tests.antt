-- ===== src/Clock/Tests.antt =====
-- A concrete clock, of two speeds: the theorems on it at inputs, and runs of the code.
use wc3env.Prelude.{
  ℕ, ◌+◌, ◌*◌, ◌/◌, ◌≤◌, ◌≡◌, refl, Bool, true, false, Option, none, some, List, [], ◌∷◌, arith,
  if◌then◌else◌, ◌==◌, length,
}
use wc3env.Prelude.Int.{ℤ, pos, negsuc, ◌+ℤ◌, ◌-ℤ◌, ◌≤ℤ◌}
use wc3env.Clock.{Double, Clock, virt_at, set_speed, init, anchor_write, reanchor}
use wc3env.Clock.Units.{clock_units, neg, clock_units-exact}
use wc3env.Clock.History.{
  Write, speeds, freezes, run, Rising, run-monotone, IsPublished, run-IsPublished,
}
use wc3env.Clock.Waits.{Wait, wait_timeout}
use wc3env.Clock.Waits.Answered.{first_on, all_on}
use wc3env.Clock.Seqlock.{
  Shared, Reach, here, next, read_begin, read_field, quiet, IsAccepted, accepted-whole, update,
}

abbrev scale : Bool → ℤ → ℤ
scale false z = z
scale true (pos n) = pos (2 * n)
scale true (negsuc n) = negsuc (2 * n + 1)

abbrev cut : Bool → ℕ → ℕ
cut s ms = if s then ms / 2 else ms

scale_zero : (s : Bool) → scale s (pos 0) ≡ pos 0
scale_zero s = ground arith

scale_mono : (s : Bool) (a b : ℤ) → a ≤ℤ b → scale s a ≤ℤ scale s b
scale_mono s a b h = ground arith

cut_le : (s : Bool) (ms : ℕ) → s ≡ true → cut s ms ≤ ms
cut_le s ms h = ground arith

-- The real time and twice it.
abbrev single_or_twice : Double
single_or_twice = record {
  Speed = Bool;
  one = false;
  above_one = λ s. s;
  scale = scale;
  cut = cut;
  scale_zero = scale_zero;
  scale_mono = scale_mono;
  cut_le = cut_le;
}

abbrev doubled : Clock single_or_twice
doubled = set_speed single_or_twice true (pos 1000) (init single_or_twice (pos 400))

doubled_runs : virt_at single_or_twice doubled.anchor (pos 1010) ≡ pos 1020
unfolding set_speed init virt_at ◌+ℤ◌ anchor_write reanchor ◌-ℤ◌
doubled_runs = refl

abbrev history : List (Write single_or_twice × ℤ)
history = (freezes true, pos 1100) ∷ (speeds false, pos 1200) ∷ (freezes false, pos 1300) ∷ []

history-Rising : Rising single_or_twice (pos 1000) history (pos 1400)
history-Rising = (omega arith, (omega arith, (omega arith, omega arith)))

run-monotone_example :
    virt_at single_or_twice doubled.anchor (pos 1000)
    ≤ℤ virt_at single_or_twice (run single_or_twice history doubled).anchor (pos 1400)
run-monotone_example =
    run-monotone single_or_twice history (pos 1000) (pos 1400) doubled history-Rising

doubled-IsPublished : IsPublished single_or_twice doubled
unfolding set_speed init anchor_write reanchor
doubled-IsPublished = record { speed = refl; frozen = refl; event = refl; even = refl }

run-IsPublished_example : IsPublished single_or_twice (run single_or_twice history doubled)
run-IsPublished_example = run-IsPublished single_or_twice history doubled doubled-IsPublished

-- Ten minutes of a 10 MHz counter, in milliseconds.
clock_units-exact_example :
    (clock_units (pos 6000000000) 10000000 1000 ≡ some (pos (6000000000 * 1000 / 10000000)))
    × (clock_units (neg 6000000000) 10000000 1000 ≡ some (neg (6000000000 * 1000 / 10000000)))
clock_units-exact_example =
    clock_units-exact 6000000000 10000000 1000 (omega arith) (omega arith) (omega arith)

abbrev half_second : ℕ
half_second = 500

-- A system where the handle 4 is signalled.
abbrev fourth : ℕ → Bool
fourth h = h == 4

abbrev index_or_timeout : Option ℕ → ℕ
index_or_timeout none = wait_timeout
index_or_timeout (some i) = i

abbrev answer : Bool → List ℕ → ℕ
answer false hs = index_or_timeout (first_on fourth hs)
answer true hs =
    if length hs == 0 then 0xffff_ffff else if all_on fourth hs then 0 else wait_timeout

abbrev answering : Wait → ℕ
answering w = answer w.all w.handles

abbrev two_handles : Wait
two_handles = record { handles = 3 ∷ 4 ∷ []; all = false; ms = 20; alertable = false }

-- A reader that copies the third anchor before its successor is written.
abbrev content : ℕ → ℕ → ℕ
content v i = 10 * v + i

abbrev looking : Shared content
looking = record (quiet content 3) { reading = true; first_seq = 6; copied = 0 }

abbrev copy_field : Shared content → Shared content
copy_field s = record s { copy = update s.copy s.copied (s.mem s.copied); copied = s.copied + 1 }

abbrev half_copied : Shared content
half_copied = copy_field (copy_field looking)

abbrev all_copied : Shared content
all_copied = copy_field (copy_field (copy_field half_copied))

half_copied-Reach : Reach content (quiet content 3) half_copied
half_copied-Reach =
    next (next (next here (read_begin (quiet content 3))) (read_field looking refl (omega arith)))
      (read_field (copy_field looking) refl (omega arith))

all_copied-Reach : Reach content (quiet content 3) all_copied
all_copied-Reach =
    next
      (next (next half_copied-Reach (read_field half_copied refl (omega arith)))
        (read_field (copy_field half_copied) refl (omega arith)))
      (read_field (copy_field (copy_field half_copied)) refl (omega arith))

all_copied-IsAccepted : IsAccepted content all_copied
all_copied-IsAccepted = record { reading = refl; complete = refl; even = refl; unchanged = refl }

accepted-whole_example :
    (all_copied.seq ≡ 2 * all_copied.version) × (all_copied.copy 4 ≡ content all_copied.version 4)
accepted-whole_example =
    accepted-whole content 3 all_copied-Reach all_copied-IsAccepted (omega arith) 4 (omega arith)

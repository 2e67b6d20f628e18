-- ===== src/Events/Origin.antt =====
-- wc3hook/events.c: where an order comes from, by the return addresses on the stack. `stack fp` is what
-- stands at a frame pointer: the next frame pointer and the return address, relative to the program.
use wc3env.Prelude.{
  ℕ, zero, suc, ◌+◌, ◌<◌, ◌≢◌, not, ◌&&◌, Option, none, some, if◌then◌else◌, ltb, leb, arith,
}

pub data Origin : Type 0 where
  engine player script : Origin

-- The walk up the frames, from the limit of the stack to its base; `none` is fuel that has run out.
pub order_origin : ℕ → (ℕ → ℕ × ℕ) → (limit base : ℕ) → ℕ → Option Origin
order_origin zero stack limit base fp = none
order_origin (suc fuel) stack limit base fp =
    let up = order_origin fuel stack limit base (stack fp).0 in
    let rva = (stack fp).1 in
    if not (leb limit fp && leb (fp + 8) base)
    then some engine
    else if leb 0x2c9360 rva && ltb rva 0x2c95a0
    then some player
    else if leb 0x4d75b0 rva && ltb rva 0x4d84a0
    then some script
    else if leb (stack fp).0 fp
    then some engine
    else up

-- The walk ends on every stack, also on one that is not well formed: each frame lies above the one
-- before it, so as much fuel as there are bytes up to the base, and one more, is enough.
pub order_origin-total :
    (fuel : ℕ) (stack : ℕ → ℕ × ℕ) (limit base fp : ℕ)
    → base < fp + fuel
    → 0 < fuel
    → order_origin fuel stack limit base fp ≢ none
unfolding order_origin
order_origin-total zero stack limit base fp h p = absurd (omega arith)
order_origin-total (suc fuel) stack limit base fp h p =
    ground (arith, order_origin-total fuel stack limit base (stack fp).0)

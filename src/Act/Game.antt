-- ===== src/Act/Game.antt =====
-- wc3hook/act.c: the items of a job, what the game answers of them, and the sites of buildings.
use wc3env.Prelude.{
  ℕ, ◌+◌, ◌-◌, ◌*◌, ◌^◌, ◌≤◌, Bool, true, false, ◌&&◌, Option, none, some, List, [], ◌∷◌, ◌++◌,
  if◌then◌else◌, ltb, leb, ◌==◌, length, min, length-append, arith, Option-cases, Bool-cases, inl,
  inr,
}
use wc3env.Prelude.Words.{sub32}
use wc3env.Act.{ActQueue}
use wc3env.Act.Encode.{Object}

pub data Reason : Type 0 where
  ok : Reason
  not_yours : Reason
  unknown_unit : Reason
  unknown_command : Reason
  bad_args : Reason
  queue_full : Reason
  no_build_site : Reason

-- The words of `command`; `other` is any other.
pub data Command : Type 0 where
  move : Command
  stop : Command
  attack : Command
  smart : Command
  harvest : Command
  build : Command
  train : Command
  research : Command
  learn : Command
  cast : Command
  use_item : Command
  drop_item : Command
  revive : Command
  select : Command
  buy : Command
  other : Command

-- Ids are the numbers that observations carry; 0 is no target. `slot` is `none` where it is negative.
pub record ActItem : Type 0 where
  pub unit_id : ℕ
  pub command : Command
  pub has_xy : Bool
  pub x : ℕ
  pub y : ℕ
  pub target : ℕ
  pub type_id : List ℕ
  pub order : List ℕ
  pub slot : Option ℕ
  pub shop : ℕ
  pub item_type : List ℕ
  pub reason : Reason
  pub queued : Bool
  pub auto_place : Bool

pub record PendingSite : Type 0 where
  pub type : ℕ
  pub x : ℕ
  pub y : ℕ
  pub worker : Object

pub record QueuedSite : Type 0 where
  pub site : PendingSite
  pub worker : ℕ
  pub at : ℕ

-- What the search for a site answers: a site, none, or a failure.
pub data Placed : Type 0 where
  found : (x y : ℕ) → Placed
  nowhere : Placed
  failed : Placed

-- The game, as the orders are made: an object by its id (with its class), its owner, who sees it,
-- where it stands, the unit's items, the workers' orders to build, the search for a site, the table
-- `ORDER_NAMES`, the clock, and memory.
pub record Game : Type 0 where
  pub unit_by_rpc_id : ℕ → Option Object
  pub find_widget : ℕ → Option (Object × ℕ)
  pub unit_owner : Object → Option ℕ
  pub object_visible : Object → ℕ → ℕ → Bool
  pub unit_x : Object → ℕ
  pub unit_y : Object → ℕ
  pub unit_item_in_slot : Object → ℕ → Option Object
  pub placement_pending : ℕ → List PendingSite
  pub placement_find : Object → ℕ → ℕ → ℕ → List PendingSite → Option Object → Placed
  pub order_names : List (List ℕ × ℕ)
  pub game_time : ℕ
  pub realloc : ℕ → Bool

abbrev pub max_pending : ℕ
max_pending = 256

abbrev pub max_queued_sites : ℕ
max_queued_sites = 64

abbrev pub queued_site_ms : ℕ
queued_site_ms = 60000

pub fourcc : List ℕ → ℕ
fourcc (a ∷ b ∷ c ∷ d ∷ []) = a * 16777216 + b * 65536 + c * 256 + d
fourcc _ = 0

abbrev is_digit : ℕ → Bool
is_digit c = leb 48 c && leb c 57

strtoul : ℕ → List ℕ → ℕ
strtoul n [] = min n (2 ^ 32 - 1)
strtoul n (c ∷ cs) =
    let rest = strtoul (n * 10 + (c - 48)) cs in if is_digit c then rest else min n (2 ^ 32 - 1)

abbrev lower : ℕ → ℕ
lower c = if leb 65 c && leb c 90 then c + 32 else c

abbrev same_name : List ℕ → List ℕ → Bool
same_name [] [] = true
same_name [] (d ∷ ds) = false
same_name (c ∷ cs) [] = false
same_name (c ∷ cs) (d ∷ ds) = lower c == lower d && same_name cs ds

named : List (List ℕ × ℕ) → List ℕ → ℕ
named [] name = 0
named ((n, id) ∷ ns) name = let rest = named ns name in if same_name n name then id else rest

abbrev starts_with_digit : List ℕ → Bool
starts_with_digit [] = false
starts_with_digit (c ∷ cs) = is_digit c

pub order_id : List (List ℕ × ℕ) → List ℕ → ℕ
order_id names name =
    if starts_with_digit name
    then (let id = strtoul 0 name in if leb 851970 id && ltb id 0x100_0000 then id else 0)
    else named names name

pub forget_queued_sites : ℕ → List QueuedSite → List QueuedSite
forget_queued_sites worker [] = []
forget_queued_sites worker (q ∷ qs) =
    let rest = forget_queued_sites worker qs in if q.worker == worker then rest else q ∷ rest

-- The pending sites and the queued sites, after the live ones are added to the first.
pub add_queued_sites :
    Game → List PendingSite → ℕ → List QueuedSite → List PendingSite × List QueuedSite
add_queued_sites g pending max [] = (pending, [])
add_queued_sites g pending max (q ∷ qs) = elim (g.unit_by_rpc_id q.worker) [
  | none ↦ add_queued_sites g pending max qs
  | some w ↦
      let site : PendingSite = record q.site { worker = w } in
      let next = if ltb (length pending) max then pending ++ site ∷ [] else pending in
      let dropped = add_queued_sites g pending max qs in
      let kept = add_queued_sites g next max qs in
      if leb queued_site_ms (sub32 g.game_time q.at)
      then dropped
      else (kept.0, record q { site = site } ∷ kept.1)
]

-- The state of a player's encoding: `pending` is `none` until a first order to build.
pub record Encoder : Type 0 where
  pub queue : ActQueue
  pub previous : ℕ × ℕ
  pub queued : List QueuedSite
  pub pending : Option (List PendingSite)

pub forget-length : (w : ℕ) (qs : List QueuedSite) → length (forget_queued_sites w qs) ≤ length qs
unfolding forget_queued_sites
forget-length w [] = omega arith
forget-length w (q ∷ qs) = ground (arith, forget-length w qs)

pub add-length :
    (g : Game) (ps : List PendingSite) (max : ℕ) (qs : List QueuedSite)
    → length ps ≤ max
    → (length (add_queued_sites g ps max qs).0 ≤ max)
      × (length (add_queued_sites g ps max qs).1 ≤ length qs)
unfolding add_queued_sites
add-length g ps max [] h = (h, omega arith)
add-length g ps max (q ∷ qs) h = elim (Option-cases (g.unit_by_rpc_id q.worker)) [
  | inl e ↦ let l = add-length g ps max qs h in rw (add_queued_sites, e) (l.0, omega (arith, l.1))
  | inr (w, e) ↦
      let site : PendingSite = record q.site { worker = w } in
      let next = if ltb (length ps) max then ps ++ site ∷ [] else ps in
      let l = add-length g ps max qs h in
      let m = add-length g next max qs (ground (arith, length-append ps (site ∷ []))) in
      elim (Bool-cases (leb queued_site_ms (sub32 g.game_time q.at))) [
        | inl t ↦ rw (add_queued_sites, e, t) (l.0, omega (arith, l.1))
        | inr t ↦ rw (add_queued_sites, e, t) (m.0, omega (arith, m.1))
      ]
]

-- One player's records and selection, after `act_clear`.
pub act_clear : Encoder → Encoder
act_clear e = record e { queue = record { records = []; capacity = 0 }; previous = (0, 0) }

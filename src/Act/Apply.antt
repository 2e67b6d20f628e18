-- ===== src/Act/Apply.antt =====
-- wc3hook/act.c: an item of a job, from its unit, target and command to its verdict and records.
mod Fits
pub mod Decided
pub mod Safety
pub mod Authority
use wc3env.Prelude.{
  ℕ, zero, suc, ◌+◌, ◌-◌, ◌*◌, ◌/◌, ◌%◌, ◌^◌, ◌≤◌, ◌<◌, ◌≡◌, refl, Bool, true, false, not, ◌&&◌,
  ◌||◌, Option, none, some, List, [], ◌∷◌, ◌++◌, if◌then◌else◌, ltb, leb, ◌==◌, length, min,
}
use wc3env.Act.{Bytes, ActQueue, act_reserve, enqueue_all}
use wc3env.Act.Encode.{
  Object, o_move, o_stop, o_attack, o_smart, o_harvest, o_revive, select_unit, rec_order, rec_point,
  rec_use_item_at, rec_use_item, rec_drop_item,
}
use wc3env.Act.Game.{
  Reason, ok, not_yours, unknown_unit, unknown_command, bad_args, queue_full, no_build_site,
  Command, move, stop, attack, smart, harvest, build, train, research, learn, cast, use_item,
  drop_item, revive, select, buy, other, ActItem, PendingSite, QueuedSite, Placed, found, nowhere,
  failed, Game, max_pending, max_queued_sites, fourcc, order_id, forget_queued_sites,
  add_queued_sites, Encoder,
}

pub data Decision : Type 0 where
  refuse : Reason → Decision
  issue : List Bytes → ℕ × ℕ → Decision

abbrev pub order_after : Object → ℕ × ℕ → Bytes → Decision
order_after u previous r = let s = select_unit u previous in issue (s.0 ++ r ∷ []) s.1

abbrev pub flags_of : ActItem → ℕ
flags_of a = if a.queued then 1 else 0

abbrev pub is_build : Command → Bool
is_build build = true
is_build _ = false

module _ (g : Game) (player : ℕ) (a : ActItem) (u : Object) (previous : ℕ × ℕ) where
  abbrev pub target_x : Option Object → ℕ
  target_x none = a.x
  target_x (some t) = g.unit_x t

  abbrev pub target_y : Option Object → ℕ
  target_y none = a.y
  target_y (some t) = g.unit_y t

  abbrev pub is_some : Option Object → Bool
  is_some none = false
  is_some (some t) = true

  pub at_target : ℕ → ℕ → Option Object → Decision
  at_target flags order t =
      order_after u previous (rec_point flags order (target_x t) (target_y t) t)

  pub typed : ℕ → Decision
  typed flags =
      if fourcc a.type_id == 0
      then refuse bad_args
      else order_after u previous (rec_order flags (fourcc a.type_id))

  pub slot_item : Option Object
  slot_item = elim a.slot [
    | none ↦ none
    | some slot ↦ if ltb 5 slot then none else g.unit_item_in_slot u slot
  ]

  abbrev pub slot_number : Option ℕ → ℕ
  slot_number none = 0
  slot_number (some slot) = slot

  pub use_of : Option Object → Decision
  use_of t = elim slot_item [
    | none ↦ refuse bad_args
    | some it ↦
        if is_some t || a.has_xy
        then order_after u previous
            (rec_use_item_at (slot_number a.slot) it (flags_of a) (target_x t) (target_y t) t)
        else order_after u previous (rec_use_item (slot_number a.slot) it (flags_of a))
  ]

  pub drop_of : Option Object → Decision
  drop_of t = elim slot_item [
    | none ↦ refuse bad_args
    | some it ↦
        if not (is_some t) && not a.has_xy
        then order_after u previous (rec_drop_item it (flags_of a) (g.unit_x u) (g.unit_y u) t)
        else order_after u previous (rec_drop_item it (flags_of a) (target_x t) (target_y t) t)
  ]

  pub buy_from : Decision
  buy_from = elim (g.unit_by_rpc_id a.shop) [
    | none ↦ refuse bad_args
    | some shop ↦
        if fourcc a.item_type == 0 || not (g.object_visible shop 0x2b77_3375 player)
        then refuse bad_args
        else let s = select_unit u previous in
          let s' = select_unit shop s.1 in
          issue (s.0 ++ s'.0 ++ rec_order 0 (fourcc a.item_type) ∷ []) s'.1
  ]

  -- The commands but for `build`, with the target found.
  pub command_of : Command → Option Object → Decision
  command_of move t =
      if a.has_xy
      then order_after u previous (rec_point (flags_of a) o_move a.x a.y none)
      else refuse bad_args
  command_of stop t = order_after u previous (rec_order (flags_of a) o_stop)
  command_of attack t =
      if not (is_some t) && not a.has_xy then refuse bad_args else at_target (flags_of a) o_attack t
  command_of smart t = if is_some t then at_target (flags_of a) o_smart t else refuse bad_args
  command_of harvest t =
      if not (is_some t) && not a.has_xy
      then refuse bad_args
      else at_target (flags_of a) o_harvest t
  command_of build t = refuse unknown_command
  command_of train t = typed 0
  command_of research t = typed 0
  command_of learn t = typed 0x42
  command_of cast t =
      let o = order_id g.order_names a.order in
      if o == 0
      then refuse bad_args
      else if is_some t || a.has_xy
      then at_target (flags_of a) o t
      else order_after u previous (rec_order (flags_of a) o)
  command_of use_item t = use_of t
  command_of drop_item t = drop_of t
  command_of revive t = if is_some t then at_target 0 o_revive t else refuse bad_args
  command_of select t = let s = select_unit u previous in issue s.0 s.1
  command_of buy t = buy_from
  command_of other t = refuse unknown_command

  -- The sites known, and the queued ones: found at the first order to build of a job.
  pub known_sites : Encoder → List PendingSite × List QueuedSite
  known_sites e = elim e.pending [
    | none ↦ add_queued_sites g (g.placement_pending player) (max_pending * 3 / 4) e.queued
    | some pending ↦ (pending, e.queued)
  ]

  -- An order to build: the site that it takes joins the known ones, and the queued ones where the order
  -- is queued. A replacing order frees the worker's own earlier site.
  pub build_at :
      Option Object → Placed → List PendingSite → List QueuedSite → Encoder → Decision × Encoder
  build_at t nowhere pending queued e =
      (refuse no_build_site, record e { pending = some pending; queued = queued })
  build_at t failed pending queued e =
      (refuse queue_full, record e { pending = some pending; queued = queued })
  build_at t (found x y) pending queued e =
      let site : PendingSite = record { type = fourcc a.type_id; x = x; y = y; worker = u } in
      (
        order_after u previous (rec_point (flags_of a) (fourcc a.type_id) x y t),
        record e {
          pending =
              some (if ltb (length pending) max_pending then pending ++ site ∷ [] else pending);
          queued =
              if a.queued && ltb (length queued) max_queued_sites
              then queued ++ record { site = site; worker = a.unit_id; at = g.game_time } ∷ []
              else queued;
        },
      )

  pub build_of : Option Object → Encoder → Decision × Encoder
  build_of t e =
      if fourcc a.type_id == 0 || (not (is_some t) && not a.has_xy) || (is_some t && a.auto_place)
      then (refuse bad_args, e)
      else let sites = known_sites e in
        let placed =
          if a.auto_place
          then g.placement_find u (fourcc a.type_id) a.x a.y sites.0
              (if a.queued then none else some u)
          else found (target_x t) (target_y t) in
        build_at t placed sites.0 sites.1 e

  pub decide : Option Object → Encoder → Decision × Encoder
  decide t e = if is_build a.command then build_of t e else (command_of a.command t, e)

-- What a target id names: nothing, no object that may be a target, or an object.
pub data Target : Type 0 where
  untargeted : Target
  bad : Target
  target : Object → Target

abbrev is_revive : Command → Bool
is_revive revive = true
is_revive _ = false

abbrev pub owned_by : ℕ → Option ℕ → Bool
owned_by p none = false
owned_by p (some q) = p == q

-- A dead hero is hidden, so `revive` asks for the owner of its target instead of its visibility.
pub find_target : Game → ℕ → ActItem → Target
find_target g player a =
    if a.target == 0
    then untargeted
    else if is_revive a.command
    then elim (g.unit_by_rpc_id a.target) [
      | none ↦ bad
      | some t ↦ if owned_by player (g.unit_owner t) then target t else bad
    ]
    else elim (g.find_widget a.target) [
      | none ↦ bad
      | some (t, class) ↦ if g.object_visible t class player then target t else bad
    ]

-- The records of a decision are queued one by one.
pub carry_out : Decision × Encoder → Option (Reason × Encoder)
carry_out (refuse r, e) = some (r, e)
carry_out (issue bs selected, e) = elim (enqueue_all bs e.queue) [
  | none ↦ none
  | some q ↦ some (ok, record e { queue = q; previous = selected })
]

pub issue_to : Game → ℕ → ActItem → Object → Option Object → Encoder → Option (Reason × Encoder)
issue_to g player a u t e =
    let reserved = act_reserve g.realloc e.queue in
    let e' = record e { queue = reserved.1 } in
    if reserved.0 then carry_out (decide g player a u e.previous t e') else some (queue_full, e')

pub aim : Game → ℕ → ActItem → Object → Target → Encoder → Option (Reason × Encoder)
aim g player a u untargeted e = issue_to g player a u none e
aim g player a u bad e = some (bad_args, e)
aim g player a u (target t) e = issue_to g player a u (some t) e

-- One item that has no verdict yet.
pub act_item : Game → ℕ → ActItem → Encoder → Option (Reason × Encoder)
act_item g player a e = elim (g.unit_by_rpc_id a.unit_id) [
  | none ↦ some (unknown_unit, e)
  | some u ↦
      let e' =
        if a.queued then e else record e { queued = forget_queued_sites a.unit_id e.queued } in
      if not (owned_by player (g.unit_owner u))
      then some (not_yours, e')
      else aim g player a u (find_target g player a) e'
]

abbrev pub is_ok : Reason → Bool
is_ok ok = true
is_ok _ = false

-- A job's items in order: their verdicts, and the state after them.
pub act_items : Game → ℕ → List ActItem → Encoder → Option (List Reason × Encoder)
act_items g player [] e = some ([], e)
act_items g player (a ∷ as') e =
    if is_ok a.reason
    then elim (act_item g player a e) [
      | none ↦ none
      | some (r, e') ↦ elim (act_items g player as' e') [
        | none ↦ none
        | some (rs, e'') ↦ some (r ∷ rs, e'')
      ]
    ]
    else elim (act_items g player as' e) [
      | none ↦ none
      | some (rs, e'') ↦ some (a.reason ∷ rs, e'')
    ]

-- The sites of buildings are found anew for each job.
pub act_apply : Game → ℕ → List ActItem → Encoder → Option (List Reason × Encoder)
act_apply g player items e = act_items g player items (record e { pending = none })

-- ===== src/Act/Apply/Authority.antt =====
-- An agent orders its own units only, at targets that it may know of.
use wc3env.Prelude.{ℕ, ◌≡◌, true, false, Option, none, some}
use wc3env.Act.Encode.{Object}
use wc3env.Act.Game.{Reason, ActItem, Game, Encoder, ok}
use wc3env.Act.Apply.{target, is_revive}

-- Nothing was queued or selected.
pub record IsSame (d e : Encoder) : Type 0 where
  pub records : d.queue.records ≡ e.queue.records
  pub previous : d.previous ≡ e.previous

-- The target that an item names: none; for `revive` a unit that the player owns, since a dead hero is
-- hidden; for any other command a unit or an item that the player sees.
pub data IsNamed (g : Game) (player : ℕ) (a : ActItem) : Type 0 where
  unnamed : a.target ≡ 0 → IsNamed g player a
  revived :
      (t : Object)
      → is_revive a.command ≡ true
      → g.unit_by_rpc_id a.target ≡ some t
      → g.unit_owner t ≡ some player
      → IsNamed g player a
  visible :
      (t : Object) (class : ℕ)
      → is_revive a.command ≡ false
      → g.find_widget a.target ≡ some (t, class)
      → g.object_visible t class player ≡ true
      → IsNamed g player a

-- An item either queues nothing and keeps the selection, or is accepted: then its unit is the
-- player's, and so are its target, if it names one, or visible to it.
pub data IsAuthorised (g : Game) (player : ℕ) (a : ActItem) (e : Encoder)
    : Option (Reason × Encoder) → Type 0 where
  aborted : IsAuthorised g player a e none
  nothing : (r : Reason) (e' : Encoder) → IsSame e' e → IsAuthorised g player a e (some (r, e'))
  ordered :
      (u : Object) (e' : Encoder)
      → g.unit_by_rpc_id a.unit_id ≡ some u
      → g.unit_owner u ≡ some player
      → IsNamed g player a
      → IsAuthorised g player a e (some (ok, e'))

-- ===== src/Events/Kinds.antt =====
-- wc3hook/events.c: the game's fire functions that are detoured, and the event that each records.
use wc3env.Prelude.{ℕ, ◌≡◌, ◌≢◌, true, Option, none, some, refl}
use wc3env.Events.{World, Logs, built, ev_record}
use wc3env.Events.Records.{event_record, event_record-given, one_of, kinds}

-- The calls, with the arguments that are read of each: objects, ids of types, the level of a hero, the
-- hundredths of a damage (0 without its pointer). For orders, the origin that the stack shows.
pub data Fired (Object : Type 0) : Type 0 where
  construct_start : Option Object → Fired Object
  construct_cancel : Option Object → Fired Object
  construct_finish : Option Object → Fired Object
  hero_level : (a : Option Object) (level : ℕ) → Fired Object
  attacked : (a b : Option Object) → Fired Object
  death : (a b : Option Object) → Fired Object
  upgrade_start : Option Object → ℕ → Fired Object
  upgrade_cancel : Option Object → ℕ → Fired Object
  upgrade_finish : Option Object → ℕ → Fired Object
  train_start : Option Object → ℕ → Fired Object
  train_cancel : Option Object → ℕ → Fired Object
  train_finish : (a b : Option Object) → Fired Object
  research_start : Option Object → ℕ → Fired Object
  research_cancel : Option Object → ℕ → Fired Object
  research_finish : Option Object → ℕ → Fired Object
  summon : (a b : Option Object) → Fired Object
  item_pickup : (a b : Option Object) → Fired Object
  item_use : (a b : Option Object) → Fired Object
  hero_learn : Option Object → ℕ → Fired Object
  item_sold : (a b c : Option Object) → Fired Object
  unit_sold : (a b c : Option Object) → Fired Object
  damaged : (pl b : Option Object) → ℕ → Fired Object
  spell_effect : (unit ability : Option Object) → Fired Object

module _ {Object : Type 0} where
  abbrev type_or_zero : World Object → Option Object → ℕ
  type_or_zero w none = 0
  type_or_zero w (some o) = w.type_id o

  -- The arguments of `ev_record`: id, unit, other, item and argument.
  pub recorded : World Object → Fired Object → ℕ × Option Object × Option Object × Option Object × ℕ
  recorded w (construct_start a) = (26, a, none, none, 0)
  recorded w (construct_cancel a) = (27, a, none, none, 0)
  recorded w (construct_finish a) = (28, a, none, none, 0)
  recorded w (hero_level a level) = (41, a, none, none, level)
  recorded w (attacked a b) = (18, b, a, none, 0)
  recorded w (death a b) = (20, a, none, none, 0)
  recorded w (upgrade_start a b) = (29, a, none, none, b)
  recorded w (upgrade_cancel a b) = (30, a, none, none, b)
  recorded w (upgrade_finish a b) = (31, a, none, none, b)
  recorded w (train_start a b) = (32, a, none, none, b)
  recorded w (train_cancel a b) = (33, a, none, none, b)
  recorded w (train_finish a b) = (34, a, b, none, 0)
  recorded w (research_start a b) = (35, a, none, none, b)
  recorded w (research_cancel a b) = (36, a, none, none, b)
  recorded w (research_finish a b) = (37, a, none, none, b)
  recorded w (summon a b) = (47, b, a, none, 0)
  recorded w (item_pickup a b) = (49, a, none, b, 0)
  recorded w (item_use a b) = (50, a, none, b, 0)
  recorded w (hero_learn a b) = (42, a, none, none, b)
  recorded w (item_sold a b c) = (274, a, b, c, 0)
  recorded w (unit_sold a b c) = (272, a, c, none, type_or_zero w b)
  recorded w (damaged pl b hundredths) = (52, pl, b, none, hundredths)
  recorded w (spell_effect unit ability) = (277, unit, none, none, type_or_zero w ability)

  -- What a detour does to the logs.
  pub fired : World Object → Fired Object → Logs → Logs
  fired w f l = let r = recorded w f in ev_record w r.0 r.1 r.2 r.3 r.4 l

  recorded-kinds : (w : World Object) (f : Fired Object) → one_of (recorded w f).0 kinds ≡ true
  unfolding recorded
  recorded-kinds w (construct_start a) = refl
  recorded-kinds w (construct_cancel a) = refl
  recorded-kinds w (construct_finish a) = refl
  recorded-kinds w (hero_level a level) = refl
  recorded-kinds w (attacked a b) = refl
  recorded-kinds w (death a b) = refl
  recorded-kinds w (upgrade_start a b) = refl
  recorded-kinds w (upgrade_cancel a b) = refl
  recorded-kinds w (upgrade_finish a b) = refl
  recorded-kinds w (train_start a b) = refl
  recorded-kinds w (train_cancel a b) = refl
  recorded-kinds w (train_finish a b) = refl
  recorded-kinds w (research_start a b) = refl
  recorded-kinds w (research_cancel a b) = refl
  recorded-kinds w (research_finish a b) = refl
  recorded-kinds w (summon a b) = refl
  recorded-kinds w (item_pickup a b) = refl
  recorded-kinds w (item_use a b) = refl
  recorded-kinds w (hero_learn a b) = refl
  recorded-kinds w (item_sold a b c) = refl
  recorded-kinds w (unit_sold a b c) = refl
  recorded-kinds w (damaged pl b hundredths) = refl
  recorded-kinds w (spell_effect u ability) = refl

  -- Whatever fires, the event that it logs is one that players are given: no kind is logged, and so
  -- takes a place in the rings, only to be left out.
  pub recorded-given :
      (w : World Object) (f : Fired Object) (players p : ℕ) (unit : Object)
      → let r = recorded w f in event_record (built w players r.0 unit r.2 r.3 r.4) p ≢ none
  unfolding built
  recorded-given w f players p unit = event_record-given _ p (recorded-kinds w f)

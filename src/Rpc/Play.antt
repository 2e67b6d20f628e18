-- ===== src/Rpc/Play.antt =====
-- wc3hook/rpc.c: features, observe and act.
use wc3env.Prelude.{
  ℕ, ◌+◌, Bool, true, false, Option, none, some, List, [], ◌∷◌, ◌&&◌, not, ◌==◌, if◌then◌else◌, leb,
  length,
}
use wc3env.Prelude.Int.{ℤ, pos}
use wc3env.Json.{Bytes, codes, c_string}
use wc3env.Rpc.{Yyjson, same_text, get, is_list, items, int, player_param}
use wc3env.Rpc.Parse.{Batch, parsed, malformed, no_memory, act_parse}
use wc3env.Rpc.Binary.{update, binary_job}
use wc3env.Rpc.Base64.{base64_bytes}
use wc3env.Rpc.Server.{
  is_launched, is_in_game, Server, bad_status, bad_params, result, error, orders, Outcome, refuse,
  unless, acts_job, observe_job, World, run_job,
}
use wc3env.Rpc.Steps.{has_num}

module _ {Val Num : Type 0} (y : Yyjson Val Num) (w : World Num) where
  abbrev pub answer : Server → Outcome Num
  answer s = record { state = s; calls = []; reply = result }

  pub all_nums : List Val → Bool
  all_nums [] = true
  all_nums (v ∷ vs) = has_num y w (some v) && all_nums vs

  abbrev is_race : Option ℤ → Bool
  is_race (some (pos n)) = leb n 3
  is_race _ = false

  pub all_races : List Val → Bool
  all_races [] = true
  all_races (v ∷ vs) = is_race (int y (some v)) && all_races vs

  -- The bytes of a string, of any length.
  abbrev whole_str : Option Val → Option Bytes
  whole_str none = none
  whole_str (some v) = y.get_str v

  abbrev is_trees : Option Bytes → Bool
  is_trees none = false
  is_trees (some text) = elim (base64_bytes text 16384) as (λ o. Bool) [
    | none ↦ false
    | some bytes ↦ true
  ]

  unfoldable pub features_for : Option Val → Option ℕ → Server → Outcome Num
  features_for params none s = refuse bad_params s
  features_for params (some p) s =
      let bounds = get y params (codes "bounds") in
      let races = get y params (codes "races") in
      unless
        (not (
          is_list y bounds
          && length (items y bounds) == 4
          && is_list y races
          && length (items y races) == 2))
        bad_params s
        (unless
          (not (
            all_nums (items y bounds)
            && all_races (items y races)
            && is_trees (whole_str (get y params (codes "trees")))))
          bad_params s
          (answer (record s {
            features = update s.features p true;
            seen = record s.seen { has_last = update s.seen.has_last p false };
          })))

  unfoldable pub m_features : Option Val → Server → Outcome Num
  m_features params s =
      unless (not (is_in_game s.status)) bad_status s
        (features_for params (player_param y params true) s)

  -- The format of an observation: whether it is binary.
  pub format_of : Option Val → Option Bool
  format_of none = some false
  format_of (some v) = elim (y.get_str v) [
    | none ↦ none
    | some f ↦
        if same_text (c_string f) (codes "json")
        then some false
        else if same_text (c_string f) (codes "binary")
        then some true
        else none
  ]

  unfoldable pub observe_as : ℕ → Option Bool → Server → Outcome Num
  observe_as p none s = refuse bad_params s
  observe_as p (some false) s = run_job w observe_job s (
      answer (record s {
        seen = record s.seen { obs_seq = update s.seen.obs_seq p (s.seen.obs_seq p + 1) };
      }))
  observe_as p (some true) s =
      let job = binary_job w.writers (p ∷ []) s.seen in
      unless (not w.mapped) bad_status s (
        run_job w observe_job s (record {
          state = record s { seen = job.seen };
          calls = [];
          reply = if job.complete then result else error bad_status;
        }))

  abbrev pub observe_for : Option Val → Option ℕ → Server → Outcome Num
  observe_for params none s = refuse bad_params s
  observe_for params (some p) s = observe_as p (format_of (get y params (codes "format"))) s

  unfoldable pub m_observe : Option Val → Server → Outcome Num
  m_observe params s =
      unless (is_launched s.status) bad_status s
        (observe_for params (player_param y params false) s)

  unfoldable pub pass_orders : ℕ → Batch Num → Server → Outcome Num
  pass_orders p (malformed k) s = refuse bad_params s
  pass_orders p no_memory s = refuse bad_status s
  pass_orders p (parsed is) s =
      run_job w acts_job s (record { state = s; calls = orders p is ∷ []; reply = result })

  unfoldable pub act_for : Option Val → Option ℕ → Server → Outcome Num
  act_for params none s = refuse bad_params s
  act_for params (some p) s =
      let actions = get y params (codes "actions") in
      unless (not (w.is_agent p)) bad_params s (
        unless (not (is_list y actions)) bad_params s
          (pass_orders p (act_parse y w.far w.allocated actions) s))

  unfoldable pub m_act : Option Val → Server → Outcome Num
  m_act params s =
      unless (not (is_in_game s.status)) bad_status s
        (unless w.is_replay bad_status s (act_for params (player_param y params true) s))

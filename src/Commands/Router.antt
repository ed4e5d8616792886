-- ===== src/Commands/Router.antt =====
-- CommandParser::handleCommand of source/ipc/CommandParser.cpp: a command is handled by its name. Of a
-- response, the data are kept and not their text.
pub mod Safety
use text.Mathlib.Text.{◌==◌ as str_eq}
use plugin_lab.Prelude.{ℕ, String, List, ◌∷◌, [], ◌++◌, Option, none, some, if◌then◌else◌}
use plugin_lab.Host.{Host}
use plugin_lab.Timeline.{TimelineEvent}
use plugin_lab.Commands.Action.{
  Result, ok, err, Action, pure, refuse, gets, need, ◌>>=◌, ◌>>◌, refuse_if, modify,
}
use plugin_lab.Commands.Desk.{Json, Description, Desk, Parser}
use plugin_lab.Commands.Fields.{Command}
use plugin_lab.Commands.Measure.{Answer, measure, scan}
use plugin_lab.Commands.Dataset.{Report, dataset, export_wav, export_data}
use plugin_lab.Commands.Control.{
  Texts, Loading, loads, loads_blacklisted, ambiguous, not_found, load_plugin, set_param, ParamInfo,
  get_params,
}
use plugin_lab.Commands.Playback.{record_timeline, stop_timeline, play_timeline}

module _ (texts : Texts) (j : Json) (h : Host) (d : Desk j h) where
  pub data Reply : Type 0 where
    scan_status : String → Reply
    loading : String → Reply
    loading_blacklisted : String → Reply
    param_set : String → j.Real → Reply
    params : List (ParamInfo h) → Reply
    stopped : Reply
    exported : String → Reply
    reported : Report → Reply
    recording : Reply
    timeline_written : String → List (TimelineEvent h.Value) → Reply

  abbrev pub answering : {A : Type 0} → (A → Reply) → Command j h d A → Command j h d Reply
  answering f m = m >>= (λ a. pure (f a))

  abbrev pub post_load : Description → Command j h d (Unit {0})
  post_load p = modify (λ s. record s { world = d.post_load p s.world })

  -- The answer of loadPlugin; the names of an ambiguous request are left out of the error.
  unfoldable pub dispatch_load : Loading → Command j h d Reply
  dispatch_load (loads p) = post_load p >> pure (loading p.name)
  dispatch_load (loads_blacklisted p) = post_load p >> pure (loading_blacklisted p.name)
  dispatch_load (ambiguous names) = refuse "ambiguous plugin name"
  dispatch_load not_found = refuse "plugin not found"

  unfoldable pub load_command : j.Object → Command j h d Reply
  unfolding load_plugin dispatch_load
  load_command obj = do
    let path = j.to_text (j.get obj "path")
    refuse_if "path required" (str_eq path "")
    known ← gets (λ s. d.known_plugins s.world)
    lists ← need "no plugin manager" known
    dispatch_load (load_plugin texts lists.0 lists.1 path)

  unfoldable pub scan_status_command : Command j h d Reply
  scan_status_command = do
    known ← gets (λ s. d.known_plugins s.world)
    need "no plugin manager" known
    gets (λ s. scan_status (d.scan_status s.world))

  -- The handler of a name: each is tried in turn.
  abbrev pub choose : List (String × Command j h d Reply) → String → Command j h d Reply
  choose [] cmd = refuse "unknown cmd"
  choose ((name, handler) ∷ rest) cmd = if str_eq cmd name then handler else choose rest cmd

  -- The commands that measure in this process, but for a blacklisted plugin.
  abbrev pub measuring : j.Object → List (String × Command j h d Reply)
  measuring obj =
      ("measure", answering exported (measure j h d obj))
      ∷ ("scan", answering exported (scan j h d obj))
      ∷ ("dataset", answering reported (dataset j h d obj))
      ∷ ("playTimeline", answering exported (play_timeline j h d obj))
      ∷ []

  abbrev pub controlling : j.Object → List (String × Command j h d Reply)
  controlling obj =
      ("getScanStatus", scan_status_command)
      ∷ ("loadPlugin", load_command obj)
      ∷ ("setParam", answering (λ a. param_set a.0 a.1) (set_param texts j h d obj))
      ∷ ("getParams", answering params (get_params j h d))
      ∷ ("stop", modify (λ s. record s { world = d.request_cancel s.world }) >> pure stopped)
      ∷ ("exportWav", answering exported (export_wav j h d obj))
      ∷ ("exportData", answering exported (export_data j h d obj))
      ∷ ("recordTimeline", answering (λ _. recording) (record_timeline j h d))
      ∷ ("stopTimeline", answering (λ a. timeline_written a.0 a.1) (stop_timeline j h d obj))
      ∷ []

  unfoldable pub handle_object : j.Object → Command j h d Reply
  handle_object obj = choose (measuring obj ++ controlling obj) (j.to_text (j.get obj "cmd"))

  unfoldable pub handle_command : String → Command j h d Reply
  unfolding handle_object
  handle_command text = elim (j.parse text) [
    | none ↦ refuse "invalid JSON"
    | some obj ↦ handle_object obj
  ]

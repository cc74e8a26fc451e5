-- ===== src/Planner/Revision.antt =====
-- `revise_proposal_draft`.
use life_os_vnex.Prelude.{
  String, Bool, true, false, not, ◌&&◌, Option, none, some, List, [], ◌∷◌, if◌then◌else◌, ◌==◌,
}
use life_os_vnex.Prelude.Text.{strip, has, member}
use life_os_vnex.Prelude.Json.{Json, Fields, null, str, arr, obj, end, get_or, or_json, set, truthy}
use life_os_vnex.Prelude.Env.{Env}
use life_os_vnex.State.{Exception, Result, ok, raise, Action, pure, lift, ◌>>=◌}
use life_os_vnex.Bus.{dict_of}
use life_os_vnex.Planner.Dates.{LocalTime, norm, resolve_datetime}

-- `d.get(k) or {}`
abbrev pub dict_or_empty : String → Fields → Json
dict_or_empty k d = or_json (get_or k null d) (obj end)

-- `x in {…}` for a set of texts.
unfoldable pub in_texts : Json → List String → Result Bool
in_texts (str s) texts = ok (member s texts)
in_texts (arr xs) texts = raise (Exception.type_error "unhashable type: 'list'")
in_texts (obj d) texts = raise (Exception.type_error "unhashable type: 'dict'")
in_texts other texts = ok false

abbrev pub scheduled_types : List String
scheduled_types = "reminder.create" ∷ "job.create_once" ∷ "job.create_recurring" ∷ []

module _ (env : Env) where
  -- The payload with the time that the revision names.
  unfoldable pub put_time : Fields → Fields → String → Option LocalTime → Result Fields
  put_time draft payload text none = ok payload
  put_time draft payload text (some t) =
      elim (in_texts (get_or "proposal_type" null draft) scheduled_types) [
        | raise e ↦ raise e
        | ok false ↦ ok (set "due_at" (str (env.iso_local t.zone t.day t.minute)) payload)
        | ok true ↦
            elim (dict_of env (
              or_json
                (or_json (get_or "schedule" null payload) (get_or "schedule_json" null payload))
                (obj end))) [
                  | raise e ↦ raise e
                  | ok schedule ↦ ok (
                      set "schedule"
                        (obj (
                          set "source_text" (str (strip text))
                            (set "run_at" (str (env.iso_local t.zone t.day t.minute)) schedule)))
                        payload)
                ]
      ]

  abbrev with_note : String → Fields → Fields
  with_note text d =
      if not (has (norm text) "only") && not (strip text == "")
      then set "revision_note" (str (strip text)) d
      else d

  abbrev with_payload : Fields → Fields → Fields → Fields
  with_payload payload command d =
      if truthy (obj payload)
      then set "command" (obj (set "payload" (obj payload) command)) d
      else d

  unfoldable pub revise_draft : Fields → String → String → Action Fields
  unfolding put_time
  revise_draft draft text timezone = do
    command ← lift (dict_of env (dict_or_empty "command" draft))
    payload ← lift (dict_of env (dict_or_empty "payload" command))
    when ← resolve_datetime env text timezone
    payload' ← lift (put_time draft payload text when)
    pure (with_payload payload' command (with_note text draft))

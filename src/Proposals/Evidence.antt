-- ===== src/Proposals/Evidence.antt =====
-- `_attach_message_evidence`.
use life_os_vnex.Prelude.{String, ◌||◌, [], ◌∷◌, if◌then◌else◌}
use life_os_vnex.Prelude.Json.{
  Items, Fields, null, str, arr, obj, object, nil, cons, get_or, set, contains, truthy,
  append_items, text_or_null,
}
use life_os_vnex.Prelude.Env.{Env}
use life_os_vnex.State.{Message, Result, ok, raise}
use life_os_vnex.Bus.{dict_of, list_of}
use life_os_vnex.Planner.{dict_or_empty}

abbrev pub message_refs : Message → Items
message_refs m =
    cons
      (object (
        ("kind", str "message")
        ∷ ("id", str m.id)
        ∷ ("session_id", text_or_null m.session_id)
        ∷ ("run_id", text_or_null m.run_id)
        ∷ []))
      nil

-- `d["evidence_refs"] = [*d.get("evidence_refs", []), *refs]`
unfoldable pub add_refs : Items → Fields → Result Fields
add_refs refs d = elim (list_of (get_or "evidence_refs" (arr nil) d)) [
  | raise e ↦ raise e
  | ok xs ↦ ok (set "evidence_refs" (arr (append_items xs refs)) d)
]

module _ (env : Env) where
  -- The references in the dict under `k` of the payload.
  unfoldable pub add_refs_under : String → Items → Fields → Result Fields
  unfolding add_refs
  add_refs_under k refs payload = elim (dict_of env (dict_or_empty k payload)) [
    | raise e ↦ raise e
    | ok d ↦ elim (add_refs refs d) [ raise e ↦ raise e | ok d' ↦ ok (set k (obj d') payload) ]
  ]

  unfoldable pub attach_evidence : Message → Fields → Result Fields
  unfolding add_refs_under add_refs
  attach_evidence m payload =
      if contains "metadata" payload
        || truthy (get_or "domain" null payload)
        || truthy (get_or "item_type" null payload)
      then add_refs_under "metadata" (message_refs m) payload
      else if contains "schedule" payload
      then add_refs_under "schedule" (message_refs m) payload
      else add_refs (message_refs m) payload

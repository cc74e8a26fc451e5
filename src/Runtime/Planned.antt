-- ===== src/Runtime/Planned.antt =====
-- What asking the provider, announcing a plan and carrying it out leave as they are.
use life_os_vnex.Prelude.{
  ℕ, suc, String, refl, inl, inr, none, List, [], ◌∷◌, ◌++◌, ◌==◌, if◌then◌else◌, Bool-cases,
}
use life_os_vnex.Prelude.Json.{Json, str, null, object, get_or, or_json}
use life_os_vnex.Prelude.Env.{Env}
use life_os_vnex.State.{
  Store, Message, ReviewItem, Result, ok, raise, pure, id_at, new_id, utc_now, create_status_event,
}
use life_os_vnex.Bus.Effects.{Result-cases}
use life_os_vnex.Bus.{dict_of}
use life_os_vnex.Planner.{dict_or_empty, ActionProposal}
use life_os_vnex.Providers.{ProviderCompletion}
use life_os_vnex.Captures.{caught, router_mode}
use life_os_vnex.Proposals.{
  Origin, review_row, attach_evidence, add_reviews, announce_reviews, formal_reviews,
}
use life_os_vnex.Runtime.{
  announce, conversation_answer, conversation_failure, ask_provider, conversation_plan_json,
  plan_json, use_local_planner_first,
}
use life_os_vnex.Runtime.Frame.{Unchanged, unchanged, after}

module _ (env : Env) (o : Origin) (m : Message) where
  abbrev no_command : Json
  no_command = object (("command_type", str "none") ∷ ("payload", object []) ∷ [])

  add_reviews-Unchanged :
      (now : ℕ) (ps : List ActionProposal) (s : Store)
      → Unchanged s (add_reviews env o m now ps s).1
  unfolding add_reviews new_id
  add_reviews-Unchanged now [] s = unchanged s
  add_reviews-Unchanged now (p ∷ ps) s =
      elim (Result-cases (dict_of env (or_json (get_or "command" null p.draft) no_command))) [
        | inr (x, e) ↦ rw (add_reviews, e) (unchanged s)
        | inl (command, e) ↦ elim (Result-cases (dict_of env (dict_or_empty "payload" command))) [
          | inr (x, f) ↦ rw (add_reviews, e, f) (unchanged s)
          | inl (payload, f) ↦ elim (Result-cases (attach_evidence env m payload)) [
            | inr (x, g) ↦ rw (add_reviews, e, f, g) (unchanged s)
            | inl (evidence, g) ↦
                let id = id_at env "rev" s.draws in
                let t : Store = record s {
                  reviews = s.reviews ++ review_row o m now p command evidence id ∷ [];
                  draws = suc s.draws;
                } in
                let rest = add_reviews-Unchanged now ps t in
                elim (Result-cases (add_reviews env o m now ps t).0) [
                  | inr (x, h) ↦
                      rw (add_reviews, e, f, g, h)
                        (record { tables = rest.tables; runs = rest.runs })
                  | inl (rs, h) ↦
                      rw (add_reviews, e, f, g, h)
                        (record { tables = rest.tables; runs = rest.runs })
                ]
          ]
        ]
      ]

  announce_reviews-Unchanged :
      (rs : List ReviewItem) (s : Store) → Unchanged s (announce_reviews env o m rs s).1
  unfolding announce_reviews create_status_event new_id utc_now
  announce_reviews-Unchanged [] s = unchanged s
  announce_reviews-Unchanged (r ∷ rs) s =
      let rest = announce_reviews-Unchanged rs _ in
      record { tables = rest.tables; runs = rest.runs }

  pub formal_reviews-Unchanged :
      (ps : List ActionProposal) (s : Store) → Unchanged s (formal_reviews env o m ps s).1
  unfolding formal_reviews utc_now
  formal_reviews-Unchanged ps s =
      let s' : Store = record s { reads = suc s.reads } in
      let added = add_reviews-Unchanged (env.clock s.reads) ps s' in
      let first : Unchanged s _ = record { tables = added.tables; runs = added.runs } in
      elim (Result-cases (add_reviews env o m (env.clock s.reads) ps s').0) [
        | inr (x, e) ↦ rw (formal_reviews, e) first
        | inl (rows, e) ↦
            let told =
              announce_reviews-Unchanged rows (add_reviews env o m (env.clock s.reads) ps s').1 in
            elim (Result-cases
              (announce_reviews env o m rows (add_reviews env o m (env.clock s.reads) ps s').1).0) [
                | inr (x, k) ↦ rw (formal_reviews, e, k) (after first told)
                | inl (u, k) ↦ rw (formal_reviews, e, k) (after first told)
              ]
      ]

module _ (env : Env) (tz : String) where
  pub announce-Unchanged :
      (run mode : String) (es : List String) (s : Store)
      → Unchanged s (announce env tz run mode es s).1
  unfolding announce create_status_event new_id utc_now
  announce-Unchanged run mode [] s = unchanged s
  announce-Unchanged run mode (e ∷ es) s =
      let rest = announce-Unchanged run mode es _ in
      record { tables = rest.tables; runs = rest.runs }

  caught-Unchanged :
      (default_mode : String) (complete : Result ProviderCompletion) (run mode log_id : String)
      (s : Store)
      → Unchanged s
          (caught
            (conversation_answer env tz default_mode complete run log_id)
            (conversation_failure env tz default_mode complete run mode log_id)
            s).1
  unfolding caught conversation_answer conversation_failure create_status_event new_id utc_now
  caught-Unchanged dm (ok c) run mode log_id s = record { tables = refl; runs = refl }
  caught-Unchanged dm (raise x) run mode log_id s = record { tables = refl; runs = refl }

  module _ (default_mode : String) (complete : Result ProviderCompletion) where
    choose-Unchanged :
        (run mode : String) (s : Store)
        → Unchanged s
            ((if mode == "deterministic"
                then pure none
                else ask_provider env tz default_mode complete run mode)
              s).1
    unfolding ask_provider create_status_event new_id utc_now
    choose-Unchanged run mode s = elim (Bool-cases (mode == "deterministic")) [
      | inl e ↦ rw e (unchanged s)
      | inr e ↦ rw e (
          let rest =
            caught-Unchanged default_mode complete run mode (id_at env "pcall" s.draws) _ in
          record { tables = rest.tables; runs = rest.runs })
    ]

    pub plan_json-Unchanged :
        (run message : String) (s : Store)
        → Unchanged s (plan_json env tz default_mode complete run message s).1
    unfolding conversation_plan_json router_mode
    plan_json-Unchanged run message s = elim (Bool-cases (use_local_planner_first message)) [
      | inl e ↦ rw e (unchanged s)
      | inr e ↦ rw e (choose-Unchanged run _ s)
    ]

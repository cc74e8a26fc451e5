-- ===== src/Bus/Effects.antt =====
-- What a command does to the owner's tables: a relation between the tables before and after it.
use life_os_vnex.Prelude.{ℕ, String, ◌⊎◌, inl, inr, ◌≡◌, refl, [], ◌∷◌, ◌++◌, some, or_default}
use life_os_vnex.Prelude.Json.{Json, str, get_or}
use life_os_vnex.Prelude.Env.{Env, text_of}
use life_os_vnex.State.{
  Store, Tables, LifeItem, FinanceEntry, DailyLog, PrayerLog, MemoryFact, Job, Exception, Result,
  ok, raise, update_row,
}
use life_os_vnex.Bus.{CommandRequest, index, float_of, approval_output}

-- `Effect env c change now s t entity`: the command `c`, applied as the state change `change`, leads
-- from the tables `s` to `t` and concerns `entity`. An update is described apart from the others.
pub data Effect (env : Env) (c : CommandRequest) (change : String) (now : ℕ) (s t : Tables)
    : String × String → Type 0 where
  item :
      (r : LifeItem) (title : Json)
      → c.command_type ≡ "life_item.create"
      → index "title" c.payload ≡ ok title
      → r.title ≡ str (text_of env title)
      → r.approved_state_change_id ≡ change
      → t ≡ record s { items = s.items ++ r ∷ [] }
      → Effect env c change now s t ("life_item", r.id)
  entry :
      (r : FinanceEntry) (amount : Json)
      → c.command_type ≡ "finance_entry.create"
      → index "amount" c.payload ≡ ok amount
      → float_of env amount ≡ ok r.amount
      → r.review_item_id ≡ c.source_review_item_id
      → t ≡ record s { entries = s.entries ++ r ∷ [] }
      → Effect env c change now s t ("finance_entry", r.id)
  daily_log :
      (r : DailyLog)
      → c.command_type ≡ "daily_log.create"
      → r.review_item_id ≡ c.source_review_item_id
      → t ≡ record s { daily_logs = s.daily_logs ++ r ∷ [] }
      → Effect env c change now s t ("daily_log", r.id)
  prayer_log :
      (r : PrayerLog) (prayer : Json)
      → c.command_type ≡ "prayer_log.create"
      → index "prayer" c.payload ≡ ok prayer
      → r.prayer ≡ text_of env prayer
      → t ≡ record s { prayer_logs = s.prayer_logs ++ r ∷ [] }
      → Effect env c change now s t ("prayer_log", r.id)
  fact :
      (r : MemoryFact) (statement : Json)
      → c.command_type ≡ "memory_fact.create"
      → index "statement_md" c.payload ≡ ok statement
      → r.statement_md ≡ text_of env statement
      → r.status ≡ "active"
      → t ≡ record s { facts = s.facts ++ r ∷ [] }
      → Effect env c change now s t ("memory_fact", r.id)
  job :
      (r : Job) (name : Json)
      → c.command_type ≡ "job.create"
      → index "name" c.payload ≡ ok name
      → r.name ≡ text_of env name
      → t ≡ record s { jobs = s.jobs ++ r ∷ [] }
      → Effect env c change now s t ("job", r.id)
  approval :
      (id : String)
      → c.command_type ≡ "tool_call.approve"
      → id ≡ text_of env (get_or "tool_call_id" (str "approved_tool_request") c.payload)
      → t ≡ record s {
        tool_calls =
            update_row
              (λ r. r.id)
              id
              (λ r. record r {
                status = "succeeded";
                started_at = some (or_default r.started_at now);
                finished_at = some now;
                output_json = some (approval_output env);
                redacted_output_json = some (approval_output env);
              })
              s.tool_calls;
      }
      → Effect env c change now s t ("tool_call", id)

-- How an action on the store `s` ends: it raises with the tables as they were, or returns with `P`; or
-- `P` holds and it raises the error of writing the list of tasks, when that is `U`.
pub data Outcome (s : Store) (P : String × String → Tables → Type 0) (U : String → Type 0)
    : Result (String × String) × Store → Type 0 where
  failed : (e : Exception) (t : Store) → t.tables ≡ s.tables → Outcome s P U (raise e, t)
  unwritten :
      (m : String) (r : String × String) (t : Store)
      → U m
      → P r t.tables
      → Outcome s P U (raise (Exception.os_error m), t)
  done : (r : String × String) (t : Store) → P r t.tables → Outcome s P U (ok r, t)

pub Result-cases :
    {A : Type 0} (r : Result A) → ((a : A) × (r ≡ ok a)) ⊎ ((e : Exception) × (r ≡ raise e))
Result-cases (ok a) = inl (a, refl)
Result-cases (raise e) = inr (e, refl)

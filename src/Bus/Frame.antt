-- ===== src/Bus/Frame.antt =====
-- What applying a payload leaves alone, whichever command it is and however it ends.
use life_os_vnex.Prelude.{suc, Bool, true, false, if◌then◌else◌, ℕ, String, ◌≡◌, arith, refl}
use life_os_vnex.Prelude.Json.{Fields}
use life_os_vnex.Prelude.Env.{Env}
use life_os_vnex.State.{Exception, throw, Store, Action, utc_now}
use life_os_vnex.Bus.{
  CommandRequest, date_at, create_item, create_entry, create_daily_log, create_prayer_log,
  create_fact, create_job, update_item, approve_call, dispatch, apply_payload,
}

-- The tables of record keeping and of the runs: a command's payload changes none of them.
pub record SameRecords (s t : Store) : Type 0 where
  pub changes : t.changes ≡ s.changes
  pub audits : t.audits ≡ s.audits
  pub events : t.events ≡ s.events
  pub reviews : t.reviews ≡ s.reviews
  pub decisions : t.decisions ≡ s.decisions
  pub proposals : t.proposals ≡ s.proposals
  pub messages : t.messages ≡ s.messages
  pub runs : t.runs ≡ s.runs
  pub sessions : t.sessions ≡ s.sessions

pub record IsQuiet {A : Type 0} (m : Action A) : Type 0 where
  pub at : (s : Store) → SameRecords s (m s).1

if-IsQuiet :
    {A : Type 0} (b : Bool) {m n : Action A} → IsQuiet m → IsQuiet n → IsQuiet (if b then m else n)
if-IsQuiet true h k = h
if-IsQuiet false h k = k

same_records : (s : Store) → SameRecords s s
same_records s = record {
  changes = refl;
  audits = refl;
  events = refl;
  reviews = refl;
  decisions = refl;
  proposals = refl;
  messages = refl;
  runs = refl;
  sessions = refl;
}

throw-IsQuiet : {A : Type 0} {e : Exception} → IsQuiet (throw {A = A} e)
throw-IsQuiet = record { at = same_records }

module _ (env : Env) where
  date_at-IsQuiet : (tz : String) (d : Fields) → IsQuiet (date_at env tz d)
  unfolding date_at
  date_at-IsQuiet tz d = record { at = λ s. ground arith }

  create_item-IsQuiet : (d : Fields) (c : String) (now : ℕ) → IsQuiet (create_item env d c now)
  unfolding create_item
  create_item-IsQuiet d c now = record { at = λ s. ground arith }

  create_entry-IsQuiet :
      (tz : String) (c : CommandRequest) (now : ℕ) → IsQuiet (create_entry env tz c now)
  unfolding create_entry
  create_entry-IsQuiet tz c now = record { at = λ s. ground arith }

  create_daily_log-IsQuiet :
      (tz : String) (c : CommandRequest) (now : ℕ) → IsQuiet (create_daily_log env tz c now)
  unfolding create_daily_log
  create_daily_log-IsQuiet tz c now = record { at = λ s. ground arith }

  create_prayer_log-IsQuiet :
      (tz : String) (d : Fields) (now : ℕ) → IsQuiet (create_prayer_log env tz d now)
  unfolding create_prayer_log
  create_prayer_log-IsQuiet tz d now = record { at = λ s. ground arith }

  create_fact-IsQuiet : (d : Fields) (now : ℕ) → IsQuiet (create_fact env d now)
  unfolding create_fact
  create_fact-IsQuiet d now = record { at = λ s. ground arith }

  create_job-IsQuiet : (tz : String) (d : Fields) (now : ℕ) → IsQuiet (create_job env tz d now)
  unfolding create_job
  create_job-IsQuiet tz d now = record { at = λ s. ground arith }

  update_item-IsQuiet : (d : Fields) (now : ℕ) → IsQuiet (update_item env d now)
  unfolding update_item
  update_item-IsQuiet d now = record { at = λ s. ground arith }

  approve_call-IsQuiet : (d : Fields) (now : ℕ) → IsQuiet (approve_call env d now)
  unfolding approve_call
  approve_call-IsQuiet d now = record { at = λ s. ground arith }

  pub dispatch-IsQuiet :
      (tz : String) (c : CommandRequest) (id : String) (now : ℕ)
      → IsQuiet (dispatch env tz c id now)
  unfolding dispatch
  dispatch-IsQuiet tz c id now = if-IsQuiet _ (create_item-IsQuiet c.payload id now) (
      if-IsQuiet _ (update_item-IsQuiet c.payload now) (
        if-IsQuiet _ (create_entry-IsQuiet tz c now) (
          if-IsQuiet _ (create_daily_log-IsQuiet tz c now) (
            if-IsQuiet _ (create_prayer_log-IsQuiet tz c.payload now) (
              if-IsQuiet _ (create_fact-IsQuiet c.payload now) (
                if-IsQuiet _ (create_job-IsQuiet tz c.payload now)
                  (if-IsQuiet _ (approve_call-IsQuiet c.payload now) throw-IsQuiet)))))))

  pub apply_payload-IsQuiet :
      (tz : String) (c : CommandRequest) (id : String) → IsQuiet (apply_payload env tz c id)
  unfolding apply_payload utc_now
  apply_payload-IsQuiet tz c id = record {
    at = λ s.
        let q =
          (dispatch-IsQuiet tz c id (env.clock s.reads)).at (record s { reads = suc s.reads }) in
        record {
          changes = q.changes;
          audits = q.audits;
          events = q.events;
          reviews = q.reviews;
          decisions = q.decisions;
          proposals = q.proposals;
          messages = q.messages;
          runs = q.runs;
          sessions = q.sessions;
        };
  }

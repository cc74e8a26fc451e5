-- ===== src/Bus/Dispatching.antt =====
-- `_apply_payload` has the effects of its commands.
use life_os_vnex.Prelude.{
  ℕ, suc, String, Bool, Bool-cases, true, false, inl, inr, ◌≡◌, ◌≢◌, refl, ◌==◌, if◌then◌else◌,
  eq_iff, some, Option-cases,
}
use life_os_vnex.Prelude.{List}
use life_os_vnex.Prelude.Json.{Json, get_or, null, obj, end, nil, truthy, hundredths}
use life_os_vnex.Prelude.Env.{Env}
use life_os_vnex.State.{
  Store, Tables, Exception, FileWrite, raise, Action, and_then, new_id, utc_now, write_file,
}
use life_os_vnex.Bus.{
  CommandRequest, index, parse_dt, list_of, float_of, dict_of, date_at, write_tasks,
  write_memory_fact, create_item, create_entry, create_daily_log, create_prayer_log, create_fact,
  create_job, approve_call, dispatch, text_at,
}
use life_os_vnex.Bus.Effects.{Effect, Outcome, failed, unwritten, done, Result-cases}

module _ {s : Store} {P : String × String → Tables → Type 0} {U : String → Type 0} where
  branch :
      (b : Bool) (m n : Action (String × String)) (t : Store)
      → (b ≡ true → Outcome s P U (m t))
      → (b ≡ false → Outcome s P U (n t))
      → Outcome s P U ((if b then m else n) t)
  branch true m n t h k = h refl
  branch false m n t h k = k refl

module _ (env : Env) (tz : String) (c : CommandRequest) (change : String) (now : ℕ)
    (s : Store) where
  -- A command that adds an item could not write the list of tasks.
  abbrev pub IsUnwritten : String → Type 0
  IsUnwritten m =
      (c.command_type ≡ "life_item.create")
      × ((content : String) × (env.vault_error "state/tasks.md" content ≡ some m))

  abbrev Does : Action (String × String) → Type 0
  Does m = Outcome s (λ r t. Effect env c change now s.tables t r) IsUnwritten (m s)

  -- Finding the date at most reads the clock.
  after_date :
      (f : String → Action (String × String)) (t : Store)
      → ((date : String) (n : ℕ)
          → Outcome s
              (λ r t. Effect env c change now s.tables t r)
              IsUnwritten
              (f date (record t { reads = n })))
      → Outcome s
          (λ r t. Effect env c change now s.tables t r)
          IsUnwritten
          (and_then (date_at env tz c.payload t).0 f (date_at env tz c.payload t).1)
  unfolding date_at utc_now
  after_date f t h = elim (Bool-cases (truthy (get_or "local_date" null c.payload))) [
    | inl e ↦ rw e (h _ t.reads)
    | inr e ↦ rw e (h _ (suc t.reads))
  ]

  -- Writing a file keeps the tables, whether it fails or not.
  after_file :
      (path content : String) (appended : Bool) (f : String → Action (String × String)) (t : Store)
      → ((m : String)
          → env.vault_error path content ≡ some m
          → Outcome s
              (λ r t. Effect env c change now s.tables t r)
              IsUnwritten
              (raise (Exception.os_error m), t))
      → ((files : List FileWrite)
          → Outcome s
              (λ r t. Effect env c change now s.tables t r)
              IsUnwritten
              (f path (record t { files = files })))
      → Outcome s
          (λ r t. Effect env c change now s.tables t r)
          IsUnwritten
          (and_then
            (write_file env path content appended t).0
            f
            (write_file env path content appended t).1)
  unfolding write_file
  after_file path content appended f t h k = elim (Option-cases (env.vault_error path content)) [
    | inl w ↦ rw (write_file, and_then, w) (k _)
    | inr (m, w) ↦ rw (write_file, and_then, w) (h m w)
  ]

  create_item-Outcome :
      c.command_type ≡ "life_item.create" → Does (create_item env c.payload change now)
  unfolding create_item new_id write_tasks
  create_item-Outcome e = elim (Result-cases (index "title" c.payload)) [
    | inr (x, h) ↦ rw h (failed x _ refl)
    | inl (title, h) ↦ elim (Result-cases (parse_dt env (get_or "due_at" null c.payload))) [
      | inr (x, k) ↦ rw h (rw k (failed x _ refl))
      | inl (due, k) ↦ elim (Result-cases (parse_dt env (get_or "scheduled_at" null c.payload))) [
        | inr (x, l) ↦ rw h (rw k (rw l (failed x _ refl)))
        | inl (scheduled, l) ↦
            elim (Result-cases (dict_of env (get_or "metadata" (obj end) c.payload))) [
              | inr (x, m) ↦ rw h (rw k (rw l (rw m (failed x _ refl))))
              | inl (metadata, m) ↦
                  rw (h, k, l, m)
                    (after_file _ _ _ _ _
                      (λ error w.
                        unwritten error _ _ (e, (_, w)) (Effect.item _ title e h refl refl refl))
                      (λ files. done _ _ (Effect.item _ title e h refl refl refl)))
            ]
      ]
    ]
  ]

  create_entry-Outcome : c.command_type ≡ "finance_entry.create" → Does (create_entry env tz c now)
  unfolding create_entry new_id
  create_entry-Outcome e = after_date _ _ (λ date n.
      elim (Result-cases (index "amount" c.payload)) [
        | inr (x, h) ↦ rw h (failed x _ refl)
        | inl (amount, h) ↦ elim (Result-cases (float_of env amount)) [
          | inr (x, k) ↦ rw h (rw k (failed x _ refl))
          | inl (x, k) ↦ rw h (rw k (done _ _ (Effect.entry _ amount e h k refl refl)))
        ]
      ])

  create_daily_log-Outcome :
      c.command_type ≡ "daily_log.create" → Does (create_daily_log env tz c now)
  unfolding create_daily_log new_id
  create_daily_log-Outcome e = after_date _ _ (λ date n.
      elim (Result-cases
        (dict_of env (get_or "value" (get_or "value_json" (obj end) c.payload) c.payload))) [
          | inr (x, h) ↦ rw h (failed x _ refl)
          | inl (value, h) ↦ rw h (done _ _ (Effect.daily_log _ e refl refl))
        ])

  create_prayer_log-Outcome :
      c.command_type ≡ "prayer_log.create" → Does (create_prayer_log env tz c.payload now)
  unfolding create_prayer_log new_id
  create_prayer_log-Outcome e = after_date _ _ (λ date n.
      elim (Result-cases (index "prayer" c.payload)) [
        | inr (x, h) ↦ rw h (failed x _ refl)
        | inl (prayer, h) ↦ rw h (done _ _ (Effect.prayer_log _ prayer e h refl refl))
      ])

  create_fact-Outcome : c.command_type ≡ "memory_fact.create" → Does (create_fact env c.payload now)
  unfolding create_fact new_id write_memory_fact
  create_fact-Outcome e = elim (Result-cases (index "statement_md" c.payload)) [
    | inr (x, h) ↦ rw h (failed x _ refl)
    | inl (statement, h) ↦ rw h (
        after_file _ _ _ _ _ (λ error w. failed _ _ refl)
          (λ files.
            elim (Result-cases
              (float_of env (get_or "confidence" (Json.float (hundredths 80)) c.payload))) [
                | inr (x, k) ↦ rw k (failed x _ refl)
                | inl (confidence, k) ↦
                    elim (Result-cases
                      (list_of (get_or "evidence_refs" (Json.arr nil) c.payload))) [
                        | inr (x, l) ↦ rw (k, l) (failed x _ refl)
                        | inl (refs, l) ↦
                            rw (k, l) (done _ _ (Effect.fact _ statement e h refl refl refl))
                      ]
              ]))
  ]

  create_job-Outcome : c.command_type ≡ "job.create" → Does (create_job env tz c.payload now)
  unfolding create_job new_id
  create_job-Outcome e = elim (Result-cases (index "name" c.payload)) [
    | inr (x, h) ↦ rw h (failed x _ refl)
    | inl (name, h) ↦
        elim (Result-cases (
          dict_of env (get_or "schedule" (get_or "schedule_json" (obj end) c.payload) c.payload))) [
            | inr (x, k) ↦ rw h (rw k (failed x _ refl))
            | inl (schedule, k) ↦
                elim (Result-cases (
                  dict_of env
                    (get_or "command" (get_or "command_json" (obj end) c.payload) c.payload))) [
                      | inr (x, l) ↦ rw h (rw k (rw l (failed x _ refl)))
                      | inl (command, l) ↦
                          rw h (rw k (rw l (done _ _ (Effect.job _ name e h refl refl))))
                    ]
          ]
  ]

  approve_call-Outcome :
      c.command_type ≡ "tool_call.approve" → Does (approve_call env c.payload now)
  unfolding approve_call text_at
  approve_call-Outcome e = done _ _ (Effect.approval _ e refl refl)

  is_type : (k : String) → (c.command_type == k) ≡ true → c.command_type ≡ k
  is_type k h = (eq_iff c.command_type k).0 h

  pub dispatch-Outcome : c.command_type ≢ "life_item.update" → Does (dispatch env tz c change now)
  unfolding dispatch
  dispatch-Outcome other =
      branch _ _ _ _ (λ e. create_item-Outcome (is_type _ e))
        (λ _.
          branch _ _ _ _ (λ e. absurd (other (is_type _ e)))
            (λ _.
              branch _ _ _ _ (λ e. create_entry-Outcome (is_type _ e))
                (λ _.
                  branch _ _ _ _ (λ e. create_daily_log-Outcome (is_type _ e))
                    (λ _.
                      branch _ _ _ _ (λ e. create_prayer_log-Outcome (is_type _ e))
                        (λ _.
                          branch _ _ _ _ (λ e. create_fact-Outcome (is_type _ e))
                            (λ _.
                              branch _ _ _ _ (λ e. create_job-Outcome (is_type _ e))
                                (λ _.
                                  branch _ _ _ _ (λ e. approve_call-Outcome (is_type _ e))
                                    (λ _. failed _ _ refl))))))))

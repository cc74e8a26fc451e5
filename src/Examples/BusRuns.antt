-- ===== src/Examples/BusRuns.antt =====
-- Runs of the command bus.
use life_os_vnex.Prelude.{String, false, ◌≡◌, ◌≢◌, ◌==◌, eq_iff, refl, ◌⊎◌, ◌++◌, [], ◌∷◌}
use life_os_vnex.Prelude.Text.{member}
use life_os_vnex.Prelude.Json.{str, get, fields_of}
use life_os_vnex.Prelude.Env.{text_of}
use life_os_vnex.State.{Store, StatusEventRow, find_row}
use life_os_vnex.Bus.{CommandStatus, index, update_item, item_key, create_item}
use life_os_vnex.Bus.Apply.{apply, plan}
use life_os_vnex.Bus.Recording.{IsRecorded, Ends, apply_records, plan_records}
use life_os_vnex.Bus.Atomic.{IsAtomic, apply-IsAtomic, unsupported_fails}
use life_os_vnex.Bus.Updating.{Updating, update_keeps_others}
use life_os_vnex.Examples.{sample_env, empty_store, create_task, owner_command, update_task}

differs : (a b : String) → (a == b) ≡ false → a ≢ b
differs a b h e = cc ((eq_iff a b).1 e, h)

apply-IsAtomic_example :
    Ends sample_env "UTC" create_task
      (apply sample_env "UTC" create_task empty_store)
      (IsAtomic sample_env "UTC" create_task empty_store)
apply-IsAtomic_example =
    apply-IsAtomic sample_env "UTC" create_task empty_store
      (differs "life_item.create" "life_item.update" refl)

unsupported_fails_example :
    Ends sample_env "UTC"
      (owner_command "none" (fields_of []))
      (apply sample_env "UTC" (owner_command "none" (fields_of [])) empty_store)
      (λ res t. (res.status ≡ CommandStatus.failed) × (t.tables ≡ empty_store.tables))
unfolding member
unsupported_fails_example =
    unsupported_fails sample_env "UTC" (owner_command "none" (fields_of [])) empty_store
      (differs "none" "life_item.update" refl) refl

apply_records_example :
    Ends sample_env "UTC" create_task (apply sample_env "UTC" create_task empty_store) (λ res t.
      IsRecorded create_task empty_store t res
      × (((res.status ≡ CommandStatus.applied)
            × ((e : StatusEventRow) × (t.events ≡ empty_store.events ++ e ∷ [])))
          ⊎ ((res.status ≡ CommandStatus.failed) × (t.events ≡ empty_store.events))))
unfolding find_row
apply_records_example = apply_records sample_env "UTC" create_task empty_store refl

plan_records_example :
    Ends sample_env "UTC" create_task (plan sample_env "UTC" create_task empty_store) (λ res t.
      IsRecorded create_task empty_store t res
      × (t.tables ≡ empty_store.tables)
      × (t.events ≡ empty_store.events)
      × (t.files ≡ empty_store.files)
      × (res.status ≡ CommandStatus.planned))
plan_records_example = plan_records sample_env "UTC" create_task empty_store

-- The store in which the task was created.
abbrev store_with_task : Store
store_with_task = (create_item sample_env create_task.payload "stchg_a0" 7 empty_store).1

update_keeps_others_example :
    find_row item_key "item_a1"
      (update_item sample_env update_task 7 store_with_task).1.tables.items
    ≡ find_row item_key "item_a1" store_with_task.tables.items
unfolding index get text_of
update_keeps_others_example =
    update_keeps_others sample_env update_task 7 store_with_task (str "item_a0") "item_a1" refl
      (differs "item_a1" "item_a0" refl)

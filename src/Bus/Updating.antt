-- ===== src/Bus/Updating.antt =====
-- How the command life_item.update ends.
use life_os_vnex.Prelude.{
  ℕ, String, ◌≡◌, ◌≢◌, inl, inr, refl, sym, ◌∙◌, ap, some, Option-cases, eq_iff, arith,
}
use life_os_vnex.Prelude.{◌⊎◌, none}
use life_os_vnex.Prelude.Text.{◌⧺◌}
use life_os_vnex.Prelude.Json.{Json, Fields, obj, end, get_or}
use life_os_vnex.Prelude.Env.{Env, text_of}
use life_os_vnex.State.{
  Store, Tables, LifeItem, Exception, Result, ok, raise, find_row, update_row, write_file,
}
use life_os_vnex.State.Laws.{update_row-twice, find_row-update, find_row-key}
use life_os_vnex.Bus.{index, dict_of, update_fields, item_key, update_item, write_tasks}
use life_os_vnex.Bus.Effects.{Result-cases}
use mathlib.Core.Path.{subst}
use life_os_vnex.Bus.Assigning.{Assigns, Assigns-id, update_fields-Assigns}

module _ (env : Env) (d : Fields) (now : ℕ) where
  -- The tables with the item `b` in the place of the one with its id.
  abbrev pub with_item : LifeItem → Tables → Tables
  with_item b s = record s { items = update_row item_key b.id (λ _. b) s.items }

  abbrev pub updates_of : Result Fields
  updates_of = dict_of env (get_or "updates" (obj end) d)

  -- `a` is the item that the payload names.
  pub record IsTarget (s : Store) (a : LifeItem) (u : Fields) : Type 0 where
    pub raw : Json
    pub named : index "item_id" d ≡ ok raw
    pub found : find_row item_key (text_of env raw) s.tables.items ≡ some a
    pub given : updates_of ≡ ok u

  -- The payload names no item that is there, or its updates are no dict.
  abbrev pub IsRefused : Store → Type 0
  IsRefused s =
      ((e : Exception) × (index "item_id" d ≡ raise e))
      ⊎ ((raw : Json) × (index "item_id" d ≡ ok raw)
          × (find_row item_key (text_of env raw) s.tables.items ≡ none))
      ⊎ ((e : Exception) × (updates_of ≡ raise e))

  -- What is written to the list of tasks.
  abbrev pub task_list : LifeItem → String
  task_list r = "# Tasks\n\n- [" ⧺ text_of env r.status ⧺ "] " ⧺ text_of env r.title ⧺ "\n"

  pub data Updating (s : Store) : Result (String × String) × Store → Type 0 where
    refused : (e : Exception) → IsRefused s → Updating s (raise e, s)
    stopped :
        (a b : LifeItem) (u : Fields) (e : Exception) (t : Store)
        → IsTarget s a u
        → Assigns env u a b (raise e)
        → t.tables ≡ with_item b s.tables
        → Updating s (raise e, t)
    unwritten :
        (a b : LifeItem) (u : Fields) (m : String) (t : Store)
        → IsTarget s a u
        → Assigns env u a b (ok tt)
        → env.vault_error "state/tasks.md" (task_list b) ≡ some m
        → t.tables ≡ with_item (record b { updated_at = now }) s.tables
        → Updating s (raise (Exception.os_error m), t)
    updated :
        (a b : LifeItem) (u : Fields) (t : Store)
        → IsTarget s a u
        → Assigns env u a b (ok tt)
        → t.tables ≡ with_item (record b { updated_at = now }) s.tables
        → Updating s (ok ("life_item", b.id), t)

  merged :
      (b r : LifeItem) (s : Tables)
      → r.id ≡ b.id
      → record s { items = update_row item_key b.id (λ _. r) (with_item b s).items }
        ≡ record s { items = update_row item_key b.id (λ _. r) s.items }
  merged b r s e =
      ap (λ l. record s { items = l })
        (update_row-twice item_key b.id (λ _. b) (λ _. r) s.items (λ _ _. refl))

  given_end :
      (u : Fields) (a : LifeItem) {r : Result Unit}
      → (update_fields env u a).1 ≡ r
      → Assigns env u a (update_fields env u a).0 r
  given_end u a m =
      subst (Assigns env u a (update_fields env u a).0) m (update_fields-Assigns env u a)

  pub update_ends : (s : Store) → Updating s (update_item env d now s)
  unfolding update_item write_tasks write_file
  update_ends s = elim (Result-cases (index "item_id" d)) [
    | inr (x, h) ↦ rw h (Updating.refused x (inl (x, h)))
    | inl (raw, h) ↦ elim (Option-cases (find_row item_key (text_of env raw) s.tables.items)) [
      | inl k ↦ rw h (rw k (Updating.refused _ (inr (inl (raw, h, k)))))
      | inr (a, k) ↦ elim (Result-cases updates_of) [
        | inr (x, l) ↦ rw h (rw k (rw l (Updating.refused x (inr (inr (x, l))))))
        | inl (u, l) ↦
            let target : IsTarget s a u = record { raw = raw; named = h; found = k; given = l } in
            elim (Result-cases (update_fields env u a).1) [
              | inr (x, m) ↦
                  rw h
                    (rw k (rw l (rw m (Updating.stopped a _ u x _ target (given_end u a m) refl))))
              | inl (_, m) ↦
                  elim (Option-cases
                    (env.vault_error "state/tasks.md" (task_list (update_fields env u a).0))) [
                      | inl w ↦
                          rw (h, k, l, m, write_file, w)
                            (Updating.updated a _ u _ target (given_end u a m)
                              (merged (update_fields env u a).0 _ _ refl))
                      | inr (error, w) ↦
                          rw (h, k, l, m, write_file, w)
                            (Updating.unwritten a _ u error _ target (given_end u a m) w
                              (merged (update_fields env u a).0 _ _ refl))
                    ]
            ]
      ]
    ]
  ]

  target-id :
      {s : Store} {a b : LifeItem} {u : Fields} {r : Result Unit} {raw : Json}
      → IsTarget s a u
      → Assigns env u a b r
      → index "item_id" d ≡ ok raw
      → b.id ≡ text_of env raw
  target-id t assigns h =
      Assigns-id assigns ∙ (find_row-key item_key _ _ _ t.found ∙ same t.raw _ (sym t.named ∙ h))
    where
      value_or : Json → Result Json → Json
      value_or x (ok a) = a
      value_or x (raise e) = x

      same : (x y : Json) → ok x ≡ ok y → text_of env x ≡ text_of env y
      same x y e = ap (λ r. text_of env (value_or x r)) e

  other_row :
      (s : Tables) (b r : LifeItem) (i j : String)
      → b.id ≡ i
      → r.id ≡ b.id
      → j ≢ i
      → find_row item_key j (update_row item_key b.id (λ _. r) s.items)
        ≡ find_row item_key j s.items
  other_row s b r i j e f n =
      ground (arith, find_row-update item_key j b.id (λ _. r) s.items (λ _ _. f), eq_iff j b.id)

  kept :
      {s : Store} {p : Result (String × String) × Store} {raw : Json} (j : String)
      → Updating s p
      → index "item_id" d ≡ ok raw
      → j ≢ text_of env raw
      → find_row item_key j p.1.tables.items ≡ find_row item_key j s.tables.items
  kept j (Updating.refused e why) h n = refl
  kept {s} j (Updating.stopped a b u e t k m q) h n =
      ap (λ x. find_row item_key j x.items) q ∙ other_row s.tables b _ _ j (target-id k m h) refl n
  kept {s} j (Updating.unwritten a b u e t k m w q) h n =
      ap (λ x. find_row item_key j x.items) q ∙ other_row s.tables b _ _ j (target-id k m h) refl n
  kept {s} j (Updating.updated a b u t k m q) h n =
      ap (λ x. find_row item_key j x.items) q ∙ other_row s.tables b _ _ j (target-id k m h) refl n

  -- However an update ends, the items with another id than the payload names are found as before.
  pub update_keeps_others :
      (s : Store) (raw : Json) (j : String)
      → index "item_id" d ≡ ok raw
      → j ≢ text_of env raw
      → find_row item_key j (update_item env d now s).1.tables.items
        ≡ find_row item_key j s.tables.items
  update_keeps_others s raw j h n = kept j (update_ends s) h n

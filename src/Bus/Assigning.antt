-- ===== src/Bus/Assigning.antt =====
-- The assignments of life_item.update, described apart from the code.
use life_os_vnex.Prelude.{
  ℕ, String, true, false, ◌≡◌, refl, sym, ◌∙◌, inl, inr, Option, [], ◌∷◌, ◌==◌, eq_iff, Bool-cases,
  arith,
}
use life_os_vnex.Prelude.Text.{member, ◌⧺◌}
use life_os_vnex.Prelude.Json.{Json, Fields, obj, end, field, or_json}
use life_os_vnex.Prelude.Env.{Env}
use life_os_vnex.State.{LifeItem, Exception, Result, ok, raise}
use life_os_vnex.Bus.Effects.{Result-cases}
use life_os_vnex.Bus.{
  dict_of, parse_dt, set_column, set_due, set_scheduled, set_metadata, updatable, update_field,
  update_fields,
}

-- The item `b` is `a` with the value in the column of that name.
pub data Sets (env : Env) (v : Json) (a : LifeItem) : String → LifeItem → Type 0 where
  domain : Sets env v a "domain" (record a { domain = v })
  item_type : Sets env v a "item_type" (record a { item_type = v })
  title : Sets env v a "title" (record a { title = v })
  description : Sets env v a "description_md" (record a { description_md = v })
  status : Sets env v a "status" (record a { status = v })
  priority : Sets env v a "priority" (record a { priority = v })
  due : (t : Option ℕ) → parse_dt env v ≡ ok t → Sets env v a "due_at" (record a { due_at = t })
  scheduled :
      (t : Option ℕ)
      → parse_dt env v ≡ ok t
      → Sets env v a "scheduled_at" (record a { scheduled_at = t })
  metadata :
      (d : Fields)
      → dict_of env (or_json v (obj end)) ≡ ok d
      → Sets env v a "metadata_json" (record a { metadata_json = d })

-- Why a value is not assigned to a name, and the exception.
pub data Bars (env : Env) (v : Json) : String → Exception → Type 0 where
  unknown :
      (k : String)
      → member k (
          "domain" ∷ "item_type" ∷ "title" ∷ "description_md" ∷ "status" ∷ "priority" ∷ "due_at"
          ∷ "scheduled_at" ∷ "metadata_json" ∷ [])
        ≡ false
      → Bars env v k (Exception.value_error ("Unsupported life_item.update field: " ⧺ k))
  due : (e : Exception) → parse_dt env v ≡ raise e → Bars env v "due_at" e
  scheduled : (e : Exception) → parse_dt env v ≡ raise e → Bars env v "scheduled_at" e
  metadata :
      (e : Exception) → dict_of env (or_json v (obj end)) ≡ raise e → Bars env v "metadata_json" e

-- The updates lead from the item `a` to `b`: in order, all of them, or those before the first that is
-- barred.
pub data Assigns (env : Env) : Fields → LifeItem → LifeItem → Result Unit → Type 0 where
  finished : (a : LifeItem) → Assigns env end a a (ok tt)
  assigned :
      (k : String) (v : Json) (d : Fields) (a b c : LifeItem) (r : Result Unit)
      → Sets env v a k b
      → Assigns env d b c r
      → Assigns env (field k v d) a c r
  barred :
      (k : String) (v : Json) (d : Fields) (a : LifeItem) (e : Exception)
      → Bars env v k e
      → Assigns env (field k v d) a a (raise e)

-- The end of one assignment.
data Ends (env : Env) (k : String) (v : Json) (a : LifeItem) : LifeItem × Result Unit → Type 0 where
  set : (b : LifeItem) → Sets env v a k b → Ends env k v a (b, ok tt)
  bar : (e : Exception) → Bars env v k e → Ends env k v a (a, raise e)

module _ (env : Env) (v : Json) (a : LifeItem) where
  due_ends : Ends env "due_at" v a (set_due (parse_dt env v) a)
  unfolding set_due
  due_ends = elim (Result-cases (parse_dt env v)) [
    | inl (t, h) ↦ rw h (set _ (Sets.due t h))
    | inr (e, h) ↦ rw h (bar e (Bars.due e h))
  ]

  scheduled_ends : Ends env "scheduled_at" v a (set_scheduled (parse_dt env v) a)
  unfolding set_scheduled
  scheduled_ends = elim (Result-cases (parse_dt env v)) [
    | inl (t, h) ↦ rw h (set _ (Sets.scheduled t h))
    | inr (e, h) ↦ rw h (bar e (Bars.scheduled e h))
  ]

  metadata_ends : Ends env "metadata_json" v a (set_metadata (dict_of env (or_json v (obj end))) a)
  unfolding set_metadata
  metadata_ends = elim (Result-cases (dict_of env (or_json v (obj end)))) [
    | inl (t, h) ↦ rw h (set _ (Sets.metadata t h))
    | inr (e, h) ↦ rw h (bar e (Bars.metadata e h))
  ]

  named : (k l : String) → (k == l) ≡ true → k ≡ l
  named k l h = (eq_iff k l).0 h

  column_ends :
      (k : String)
      → member k updatable ≡ true
      → (k == "due_at") ≡ false
      → (k == "scheduled_at") ≡ false
      → (k == "metadata_json") ≡ false
      → Sets env v a k (set_column k v a)
  unfolding set_column member
  column_ends k m d s j = elim (Bool-cases (k == "domain")) [
    | inl h ↦ rw (named k _ h) Sets.domain
    | inr h1 ↦ elim (Bool-cases (k == "item_type")) [
      | inl h ↦ rw (named k _ h) Sets.item_type
      | inr h2 ↦ elim (Bool-cases (k == "title")) [
        | inl h ↦ rw (named k _ h) Sets.title
        | inr h3 ↦ elim (Bool-cases (k == "description_md")) [
          | inl h ↦ rw (named k _ h) Sets.description
          | inr h4 ↦ elim (Bool-cases (k == "status")) [
            | inl h ↦ rw (named k _ h) Sets.status
            | inr h5 ↦ elim (Bool-cases (k == "priority")) [
              | inl h ↦ rw (named k _ h) Sets.priority
              | inr h6 ↦ absurd (ground (arith, m, d, s, j, h1, h2, h3, h4, h5, h6))
            ]
          ]
        ]
      ]
    ]
  ]

  update_field-Ends : (k : String) → Ends env k v a (update_field env k v a)
  unfolding update_field member
  update_field-Ends k = elim (Bool-cases (member k updatable)) [
    | inr h ↦ rw h (bar _ (Bars.unknown k h))
    | inl h ↦ elim (Bool-cases (k == "due_at")) [
      | inl d ↦ rw (named k _ d) due_ends
      | inr d ↦ elim (Bool-cases (k == "scheduled_at")) [
        | inl s ↦ rw (named k _ s) scheduled_ends
        | inr s ↦ elim (Bool-cases (k == "metadata_json")) [
          | inl j ↦ rw (named k _ j) metadata_ends
          | inr j ↦ rw (h, d, s, j) (set _ (column_ends k h d s j))
        ]
      ]
    ]
  ]

-- What follows one assignment.
continued :
    (env : Env) (k : String) (v : Json) (d : Fields) (a : LifeItem) (p : LifeItem × Result Unit)
    → Ends env k v a p
    → Assigns env d p.0 (update_fields env d p.0).0 (update_fields env d p.0).1
    → (q : LifeItem × Result Unit)
    → (elim p.1 [ ok _ ↦ update_fields env d p.0 | raise e ↦ (p.0, raise e) ]) ≡ q
    → Assigns env (field k v d) a q.0 q.1
continued env k v d a p (set b h) rest q e = rw (sym e) (Assigns.assigned k v d a b _ _ h rest)
continued env k v d a p (bar x h) rest q e = rw (sym e) (Assigns.barred k v d a x h)

-- The loop over the updates.
pub update_fields-Assigns :
    (env : Env) (d : Fields) (a : LifeItem)
    → Assigns env d a (update_fields env d a).0 (update_fields env d a).1
unfolding update_fields
update_fields-Assigns env end a = Assigns.finished a
update_fields-Assigns env (field k v d) a =
    continued env k v d a (update_field env k v a) (update_field-Ends env v a k)
      (update_fields-Assigns env d (update_field env k v a).0) _ refl

Sets-id : {env : Env} {v : Json} {a b : LifeItem} {k : String} → Sets env v a k b → b.id ≡ a.id
Sets-id Sets.domain = refl
Sets-id Sets.item_type = refl
Sets-id Sets.title = refl
Sets-id Sets.description = refl
Sets-id Sets.status = refl
Sets-id Sets.priority = refl
Sets-id (Sets.due t h) = refl
Sets-id (Sets.scheduled t h) = refl
Sets-id (Sets.metadata t h) = refl

-- No assignment changes the id.
pub Assigns-id :
    {env : Env} {d : Fields} {a b : LifeItem} {r : Result Unit} → Assigns env d a b r → b.id ≡ a.id
Assigns-id (Assigns.finished a) = refl
Assigns-id (Assigns.assigned k v d a b c r h rest) = Assigns-id rest ∙ Sets-id h
Assigns-id (Assigns.barred k v d a e h) = refl

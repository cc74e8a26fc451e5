-- ===== src/State/Actions.antt =====
-- Statements that change the store and may raise. What was written stays written after a raise.
use life_os_vnex.Prelude.{ℕ, suc, String, Bool, some, none, [], ◌∷◌, ◌++◌, if◌then◌else◌, eqb}
use Prim.Native.Char.{code}
use life_os_vnex.Prelude.Text.{◌⧺◌, strip, lower}
use life_os_vnex.Prelude.Env.{Env}
use life_os_vnex.State.Rows.{AuditEvent, StatusEventRow}
use life_os_vnex.State.Database.{Store}

-- The exceptions that the services raise, with their texts.
pub data Exception : Type 0 where
  key_error value_error type_error attribute_error index_error overflow_error runtime_error
        os_error :
      String → Exception

-- `type(exc).__name__`
abbrev pub type_name : Exception → String
type_name (Exception.key_error m) = "KeyError"
type_name (Exception.value_error m) = "ValueError"
type_name (Exception.type_error m) = "TypeError"
type_name (Exception.attribute_error m) = "AttributeError"
type_name (Exception.index_error m) = "IndexError"
type_name (Exception.overflow_error m) = "OverflowError"
type_name (Exception.runtime_error m) = "RuntimeError"
type_name (Exception.os_error m) = "OSError"

-- `str(exc)`
abbrev pub message_of : Exception → String
message_of (Exception.key_error m) = m
message_of (Exception.value_error m) = m
message_of (Exception.type_error m) = m
message_of (Exception.attribute_error m) = m
message_of (Exception.index_error m) = m
message_of (Exception.overflow_error m) = m
message_of (Exception.runtime_error m) = m
message_of (Exception.os_error m) = m

pub data Result (A : Type 0) : Type 0 where
  ok : A → Result A
  raise : Exception → Result A

abbrev pub Action : Type 0 → Type 0
Action A = Store → Result A × Store

module _ {A : Type 0} where
  abbrev pub pure : A → Action A
  pure a s = (ok a, s)

  abbrev pub throw : Exception → Action A
  throw e s = (raise e, s)

  abbrev pub gets : (Store → A) → Action A
  gets f s = (ok (f s), s)

  abbrev pub lift : Result A → Action A
  lift r s = (r, s)

abbrev pub modify : (Store → Store) → Action Unit
modify f s = (ok tt, f s)

module _ {A B : Type 0} where
  abbrev pub and_then : Result A → (A → Action B) → Action B
  and_then (ok a) f = f a
  and_then (raise e) f = throw e

  infixl 5 ◌>>=◌ ◌>>◌
  abbrev pub ◌>>=◌ : Action A → (A → Action B) → Action B
  m >>= f = λ s. let (r, s') = m s in and_then r f s'

  abbrev pub ◌>>◌ : Action A → Action B → Action B
  m >> n = m >>= λ _. n

-- `prefix.replace("_", "-")`
dashes : String → String
dashes String.[] = String.[]
dashes (String.◌∷◌ c s) = (if eqb (code c) b'_' then "-" else String.◌∷◌ c "") ⧺ dashes s

module _ (env : Env) where
  -- The id for a prefix when the n-th random part is drawn.
  unfoldable pub id_at : String → ℕ → String
  unfolding dashes
  id_at prefix n = dashes (lower (strip prefix)) ⧺ "_" ⧺ env.hex n

  -- `new_id(prefix)`
  unfoldable pub new_id : String → Action String
  new_id prefix s = (ok (id_at prefix s.draws), record s { draws = suc s.draws })

  unfoldable pub utc_now : Action ℕ
  utc_now s = (ok (env.clock s.reads), record s { reads = suc s.reads })

  -- `create_audit_event` with the keywords that it is given.
  unfoldable pub create_audit_event : (String → ℕ → AuditEvent) → Action String
  unfolding new_id utc_now
  create_audit_event event = do
    id ← new_id "audit"
    now ← utc_now
    modify (λ s. record s { audits = s.audits ++ event id now ∷ [] })
    pure id

  unfoldable pub create_status_event : (String → ℕ → StatusEventRow) → Action Unit
  unfolding new_id utc_now
  create_status_event event = do
    id ← new_id "evt"
    now ← utc_now
    modify (λ s. record s { events = s.events ++ event id now ∷ [] })

-- `VaultWriter._write`, which returns the path.
unfoldable pub write_file : Env → String → String → Bool → Action String
write_file env path content appended = elim (env.vault_error path content) [
  | some m ↦ throw (Exception.os_error m)
  | none ↦ do
    modify (λ s. record s {
      files = s.files ++ record { path = path; content = content; appended = appended } ∷ [];
    })
    pure path
]

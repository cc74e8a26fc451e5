-- ===== src/Prelude/Env.antt =====
-- What the program takes from outside: the interpreter's text forms, random ids, the clock and the
-- time zone. Each is a function without laws; a theorem that needs one names it.
use Prim.Native.Nat.{ℕ}
use Prim.Native.String.{String}
use mathlib.Core.Bool.{Bool, true, false}
use mathlib.Core.Option.{Option}
use life_os_vnex.Prelude.Json.{Json, Float, Whole, Items, Fields, null, bool, str}

pub record Env : Type 0 where
  -- `str` of a number, a list or a dict
  pub repr : Json → String
  -- `float` of a text; `none` is a ValueError
  pub float_of_text : String → Option Float
  -- `int` of a text; `none` is a ValueError
  pub int_of_text : String → Option Whole
  -- `datetime.fromisoformat`, as microseconds; `none` is a ValueError
  pub instant_of_text : String → Option ℕ
  -- `dict` of a list that is not empty; `none` is a TypeError or a ValueError
  pub dict_of_items : Items → Option Fields
  -- `uuid4().hex`, the n-th that is drawn
  pub hex : ℕ → String
  -- `utc_now()` in microseconds, the n-th reading
  pub clock : ℕ → ℕ
  -- the local date of an instant in a time zone
  pub local_date : String → ℕ → String
  -- its proleptic ordinal, 1 for Monday the first of January of year 1
  pub local_day : String → ℕ → ℕ
  -- whether `ZoneInfo` knows the name of a time zone
  pub knows_zone : String → Bool
  -- `isoformat` of an instant
  pub iso : ℕ → String
  -- `isoformat` of a day and a minute of it in a time zone
  pub iso_local : String → ℕ → ℕ → String
  -- its form for a person, `strftime("%A at %-I:%M %p")`
  pub friendly : String → ℕ → ℕ → String
  -- `datetime.fromisoformat` and then that form; `none` is a ValueError
  pub friendly_text : String → Option String
  -- the local date as a part of a path, `%Y/%m/%d`
  pub date_path : String → ℕ → String
  -- `json.dumps(x, sort_keys=True)`
  pub json_text : Json → String
  -- `json.dumps(x)`
  pub dumps : Json → String
  -- `json.loads`; `none` is a ValueError
  pub json_of_text : String → Option Json
  -- what the file system answers to a write of a content to a path of the vault: `none`, or the message
  -- of its error
  pub vault_error : String → String → Option String
  -- the hexadecimal SHA-256 of a text
  pub sha256 : String → String

-- `str(x)`
unfoldable pub text_of : Env → Json → String
text_of env null = "None"
text_of env (bool true) = "True"
text_of env (bool false) = "False"
text_of env (str s) = s
text_of env j = env.repr j

-- ===== src/Bus/Values.antt =====
-- The conversions that the commands make of payload values: `d[k]`, `str`, `float`, `dict`, `list`,
-- `int`, `bool` and `_parse_dt`.
use Prim.Native.Char.{code}
use life_os_vnex.Prelude.{
  ℕ, ◌*◌, ◌+◌, ◌/◌, String, true, false, Option, none, some, ◌==◌, if◌then◌else◌, eqb,
}
use life_os_vnex.Prelude.Text.{◌⧺◌}
use life_os_vnex.Prelude.Json.{
  Json, Float, Whole, plus, minus, Items, Fields, null, bool, int, str, arr, obj, nil, cons, end,
  field, get, get_or,
}
use life_os_vnex.Prelude.Env.{Env, text_of}
use life_os_vnex.State.{Exception, Result, ok, raise}

-- `d[k]`
unfoldable pub index : String → Fields → Result Json
index k d = elim (get k d) [ none ↦ raise (Exception.key_error ("'" ⧺ k ⧺ "'")) | some v ↦ ok v ]

-- `list` of a text or of a dict: its characters, its keys.
unfoldable pub chars : String → Items
chars String.[] = nil
chars (String.◌∷◌ c s) = cons (str (String.◌∷◌ c "")) (chars s)

unfoldable pub keys : Fields → Items
keys end = nil
keys (field k v d) = cons (str k) (keys d)

-- `list(x)`
unfoldable pub list_of : Json → Result Items
unfolding chars keys
list_of (arr xs) = ok xs
list_of (obj d) = ok (keys d)
list_of (str s) = ok (chars s)
list_of other = raise (Exception.type_error "object is not iterable")

-- `s.replace("Z", "+00:00")`
unfoldable pub replace_z : String → String
replace_z String.[] = ""
replace_z (String.◌∷◌ c s) = (if eqb (code c) b'Z' then "+00:00" else String.◌∷◌ c "") ⧺ replace_z s

module _ (env : Env) where
  or_value_error : {A : Type 0} → Option A → String → Result A
  or_value_error none m = raise (Exception.value_error m)
  or_value_error (some a) m = ok a

  -- `dict(x)`
  unfoldable pub dict_of : Json → Result Fields
  unfolding or_value_error
  dict_of (obj d) = ok d
  dict_of (arr nil) = ok end
  dict_of (arr (cons x xs)) =
      or_value_error (env.dict_of_items (cons x xs)) "cannot convert to a dict"
  dict_of (str s) =
      if s == ""
      then ok end
      else raise (
          Exception.value_error "dictionary update sequence element #0 has length 1; 2 is required")
  dict_of other = raise (Exception.type_error "object is not iterable")

  -- `float(x)`
  unfoldable pub float_of : Json → Result Float
  unfolding or_value_error
  float_of (Json.float x) = ok x
  float_of (int n) = ok (Float.num (n * 1000000))
  float_of (bool true) = ok (Float.num 1000000)
  float_of (bool false) = ok (Float.num 0)
  float_of (str s) =
      or_value_error (env.float_of_text s) ("could not convert string to float: '" ⧺ s ⧺ "'")
  float_of other = raise (Exception.type_error "float() argument must be a string or a real number")

  -- `int(x)`
  unfoldable pub int_of : Json → Result Whole
  int_of (int n) = ok (plus n)
  int_of (bool true) = ok (plus 1)
  int_of (bool false) = ok (plus 0)
  int_of (Json.float (Float.num n)) = ok (plus (n / 1000000))
  int_of (Json.float (Float.neg n)) = ok (minus ((n + 1) / 1000000))
  int_of (Json.float Float.nan) =
      raise (Exception.value_error "cannot convert float NaN to integer")
  int_of (Json.float other) =
      raise (Exception.overflow_error "cannot convert float infinity to integer")
  int_of (str s) = elim (env.int_of_text s) [
    | none ↦ raise (Exception.value_error ("invalid literal for int() with base 10: '" ⧺ s ⧺ "'"))
    | some n ↦ ok n
  ]
  int_of other =
      raise (
        Exception.type_error
          "int() argument must be a string, a bytes-like object or a real number")

  -- `_parse_dt(value)`; the payload of a command is JSON, which has no datetime in it.
  unfoldable pub parse_dt : Json → Result (Option ℕ)
  parse_dt null = ok none
  parse_dt (str s) = if s == "" then ok none else elim (env.instant_of_text (replace_z s)) [
    | none ↦ raise (Exception.value_error ("Invalid isoformat string: '" ⧺ s ⧺ "'"))
    | some t ↦ ok (some t)
  ]
  parse_dt other = raise (Exception.type_error ("Cannot parse datetime from " ⧺ env.repr other))

  -- `str(payload.get(k, default))`
  unfoldable pub text_at : String → String → Fields → String
  text_at k default d = text_of env (get_or k (str default) d)

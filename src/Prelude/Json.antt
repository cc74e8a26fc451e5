-- ===== src/Prelude/Json.antt =====
-- The values that the program keeps in `dict[str, Any]` payloads, and Python's operations on them.
-- An object keeps its keys in insertion order; a negative number is a float.
use Prim.Native.Nat.{ℕ, ◌*◌}
use Prim.Native.String.{String}
use mathlib.Core.Path.{◌≡◌, refl}
use mathlib.Core.Bool.{Bool, true, false, not}
use mathlib.Core.Option.{Option, none, some}
use mathlib.Core.List.{List, [], ◌∷◌}
use native.Mathlib.Omega.{arith}
use text.Mathlib.Text.{◌==◌}
use text.Mathlib.TextEquality.{eq_iff}
use life_os_vnex.Prelude.Tests.{eqb, ltb, leb, if◌then◌else◌}

-- A Python float: `num n` is n millionths and `neg n` is -(n + 1) millionths. Decimal literals of up
-- to fifteen digits compare as floats do, so the tests of the program come out the same.
pub data Float : Type 0 where
  nan neg_inf inf : Float
  neg num : ℕ → Float

-- A Python int: `plus n` is n and `minus n` is -n.
pub data Whole : Type 0 where
  plus minus : ℕ → Whole

abbrev pub hundredths : ℕ → Float
hundredths n = num (n * 10000)

-- `a < b`; every comparison with nan is false.
abbrev pub lt_float : Float → Float → Bool
lt_float nan b = false
lt_float neg_inf nan = false
lt_float neg_inf neg_inf = false
lt_float neg_inf b = true
lt_float inf b = false
lt_float (neg m) nan = false
lt_float (neg m) neg_inf = false
lt_float (neg m) (neg n) = ltb n m
lt_float (neg m) inf = true
lt_float (neg m) (num n) = true
lt_float (num m) inf = true
lt_float (num m) (num n) = ltb m n
lt_float (num m) b = false

-- `a >= b`
abbrev pub ge_float : Float → Float → Bool
ge_float nan b = false
ge_float inf nan = false
ge_float inf b = true
ge_float neg_inf neg_inf = true
ge_float neg_inf b = false
ge_float (neg m) neg_inf = true
ge_float (neg m) (neg n) = leb m n
ge_float (neg m) b = false
ge_float (num m) nan = false
ge_float (num m) inf = false
ge_float (num m) (num n) = leb n m
ge_float (num m) b = true

mutual
  pub data Json : Type 0 where
    null : Json
    bool : Bool → Json
    int : ℕ → Json
    float : Float → Json
    str : String → Json
    arr : Items → Json
    obj : Fields → Json

  pub data Items : Type 0 where
    nil : Items
    cons : Json → Items → Items

  pub data Fields : Type 0 where
    end : Fields
    field : String → Json → Fields → Fields

-- `d.get(k)`, with `none` for a missing key.
unfoldable pub get : String → Fields → Option Json
get k end = none
get k (field j v d) = if j == k then some v else get k d

-- `d[k] = v`
unfoldable pub set : String → Json → Fields → Fields
set k v end = field k v end
set k v (field j w d) = if j == k then field j v d else field j w (set k v d)

-- `k in d`
unfoldable pub contains : String → Fields → Bool
contains k end = false
contains k (field j v d) = if j == k then true else contains k d

-- `d.get(k, default)`
unfoldable pub get_or : String → Json → Fields → Json
unfolding get
get_or k default d = elim (get k d) [ none ↦ default | some v ↦ v ]

pub get-set :
    (j k : String) (v : Json) (d : Fields)
    → get j (set k v d) ≡ (if k == j then some v else get j d)
unfolding get set
get-set j k v end = refl
get-set j k v (field i w d) = ground (arith, eq_iff k j, eq_iff i k, eq_iff i j, get-set j k v d)

-- `bool(x)` of a float.
abbrev pub float_truthy : Float → Bool
float_truthy (num n) = not (eqb n 0)
float_truthy x = true

-- `bool(x)`
abbrev pub truthy : Json → Bool
truthy null = false
truthy (bool b) = b
truthy (int n) = not (eqb n 0)
truthy (float x) = float_truthy x
truthy (str s) = not (s == "")
truthy (arr nil) = false
truthy (arr (cons x xs)) = true
truthy (obj end) = false
truthy (obj (field k v d)) = true

-- `a or b`
abbrev pub or_json : Json → Json → Json
or_json a b = if truthy a then a else b

-- `d.get(k) or default`
unfoldable pub get_or_else : String → Json → Fields → Json
unfolding get_or
get_or_else k default d = or_json (get_or k null d) default

abbrev pub fields_of : List (String × Json) → Fields
fields_of [] = end
fields_of ((k, v) ∷ d) = field k v (fields_of d)

-- An object written out, `{k: v, …}` with distinct keys.
abbrev pub object : List (String × Json) → Json
object d = obj (fields_of d)

abbrev pub items_of : List Json → Items
items_of [] = nil
items_of (x ∷ xs) = cons x (items_of xs)

abbrev pub array : List Json → Json
array xs = arr (items_of xs)

abbrev pub append_items : Items → Items → Items
append_items nil ys = ys
append_items (cons x xs) ys = cons x (append_items xs ys)

abbrev pub text_or_null : Option String → Json
text_or_null none = null
text_or_null (some s) = str s

-- ===== src/Providers/Values.antt =====
-- The choices of the router and the reads it makes of its configuration.
use life_os_vnex.Prelude.{ℕ, String, Bool, Option}
use life_os_vnex.Prelude.Json.{
  Json, Fields, null, bool, int, float, str, arr, obj, nil, cons, get_or,
}
use life_os_vnex.State.{Exception, Result, ok, raise}
use life_os_vnex.Bus.{index}

-- `ProviderChoice`; `raw` is the entry of the agent.
pub record ProviderChoice : Type 0 where
  pub provider : String
  pub model : String
  pub fallback_allowed : Bool
  pub raw : Fields
  pub key_label : Json
  pub api_key : Option String
  pub base_url : Json
  pub provider_type : Json

-- `ProviderCompletion`
pub record ProviderCompletion : Type 0 where
  pub content : String
  pub provider : String
  pub model : String
  pub key_label : Json
  pub latency_ms : ℕ
  pub input_tokens : Json
  pub output_tokens : Json

-- `x.get(…)` asks for a dict.
unfoldable pub fields_at : Json → Result Fields
fields_at (obj d) = ok d
fields_at (str s) = raise (Exception.attribute_error "'str' object has no attribute 'get'")
fields_at (arr xs) = raise (Exception.attribute_error "'list' object has no attribute 'get'")
fields_at null = raise (Exception.attribute_error "'NoneType' object has no attribute 'get'")
fields_at (bool b) = raise (Exception.attribute_error "'bool' object has no attribute 'get'")
fields_at (int n) = raise (Exception.attribute_error "'int' object has no attribute 'get'")
fields_at (float x) = raise (Exception.attribute_error "'float' object has no attribute 'get'")

-- `d.get(key, {})` for a key that is itself a value; the keys of the configuration are texts.
unfoldable pub get_under : Json → Fields → Result Json
get_under (str k) d = ok (get_or k (obj Fields.end) d)
get_under (arr xs) d = raise (Exception.type_error "unhashable type: 'list'")
get_under (obj e) d = raise (Exception.type_error "unhashable type: 'dict'")
get_under other d = ok (obj Fields.end)

-- `x[k]` on a dict.
unfoldable pub item_at : String → Json → Result Json
item_at k (obj d) = index k d
item_at k (arr xs) = raise (Exception.type_error "list indices must be integers or slices, not str")
item_at k (str s) = raise (Exception.type_error "string indices must be integers, not 'str'")
item_at k other = raise (Exception.type_error "object is not subscriptable")

-- `x[0]`; the bodies that come back have no integer keys.
unfoldable pub first_at : Json → Result Json
first_at (arr (cons x xs)) = ok x
first_at (arr nil) = raise (Exception.index_error "list index out of range")
first_at (str (String.◌∷◌ c s)) = ok (str (String.◌∷◌ c ""))
first_at (str String.[]) = raise (Exception.index_error "string index out of range")
first_at (obj d) = raise (Exception.key_error "0")
first_at other = raise (Exception.type_error "object is not subscriptable")

-- A sequence of results, the first exception first.
module _ {A B : Type 0} where
  infixl 5 ◌>>?◌
  abbrev pub ◌>>?◌ : Result A → (A → Result B) → Result B
  raise e >>? f = raise e
  ok a >>? f = f a

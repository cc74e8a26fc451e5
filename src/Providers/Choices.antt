-- ===== src/Providers/Choices.antt =====
-- `_choices_for_agent`, `_configured_keys` and `_models_for_ref`.
use life_os_vnex.Prelude.{
  String, Bool, true, false, not, ◌&&◌, ◌||◌, Option, none, some, List, [], ◌∷◌, ◌++◌, map,
  if◌then◌else◌, ◌==◌, ltb, leb,
}
use life_os_vnex.Prelude.Text.{◌⧺◌}
use life_os_vnex.Prelude.Sorting.{sort_by}
use life_os_vnex.Prelude.Json.{
  Json, Whole, plus, minus, Items, Fields, null, bool, int, arr, obj, nil, cons, end, get_or,
  contains, truthy,
}
use life_os_vnex.Prelude.Env.{Env, text_of}
use life_os_vnex.State.{Exception, Result, ok, raise}
use life_os_vnex.Bus.{index, list_of}
use life_os_vnex.Providers.Values.{ProviderChoice, fields_at, get_under, ◌>>?◌}

-- A key of the configuration with its priority.
pub record ConfiguredKey : Type 0 where
  pub priority : Whole
  pub entry : Fields

-- `a < b` of integers.
abbrev pub lt_whole : Whole → Whole → Bool
lt_whole (plus m) (plus n) = ltb m n
lt_whole (plus m) (minus n) = false
lt_whole (minus m) (plus n) = not (leb m 0) || ltb 0 n
lt_whole (minus m) (minus n) = ltb n m

abbrev pub sooner : ConfiguredKey → ConfiguredKey → Bool
sooner a b = lt_whole a.priority b.priority

abbrev no_key : List (Json × Option String)
no_key = (null, none) ∷ []

-- `keys or [(None, None)]`
abbrev keys_or_none : List (Json × String) → List (Json × Option String)
keys_or_none [] = no_key
keys_or_none (k ∷ ks) = map (λ (label, value). (label, some value)) (k ∷ ks)

-- `models_for_ref` on a list that is not empty.
abbrev texts_of : Env → Items → List String
texts_of env nil = []
texts_of env (cons x xs) = text_of env x ∷ texts_of env xs

module _ (env : Env) (getenv : String → Option String) (int_of : Json → Result Whole) where
  -- The entries of `keys` with `int(item.get("priority", 100))`.
  unfoldable pub with_priorities : Items → Result (List ConfiguredKey)
  with_priorities nil = ok []
  with_priorities (cons x xs) =
      let rest = with_priorities xs in
      fields_at x >>? λ entry. int_of (get_or "priority" (int 100) entry) >>? λ priority.
      rest >>? λ keys. ok (record { priority = priority; entry = entry } ∷ keys)

  -- The label and the value of a key whose variable is set.
  unfoldable pub set_key : Fields → Option (Json × String)
  set_key entry =
      if truthy (get_or "env" null entry)
      then elim (getenv (text_of env (get_or "env" null entry))) [
        | none ↦ none
        | some value ↦ if value == "" then none else some (get_or "label" null entry, value)
      ]
      else none

  unfoldable pub set_keys : List ConfiguredKey → List (Json × String)
  set_keys [] = []
  set_keys (k ∷ ks) =
      let rest = set_keys ks in elim (set_key k.entry) [ none ↦ rest | some kv ↦ kv ∷ rest ]

  -- `_configured_keys`
  unfoldable pub configured_keys : Fields → Result (List (Json × String))
  configured_keys provider = fields_at (get_or "auth" (obj end) provider) >>? λ auth.
      list_of (get_or "keys" (arr nil) auth) >>? λ items.
      with_priorities items >>? λ keys. ok (set_keys (sort_by sooner keys))

  -- `_models_for_ref`
  unfoldable pub models_for_ref : Fields → String → List String
  models_for_ref model_ref default = elim (get_or "models" null model_ref) [
    | arr (cons x xs) ↦ texts_of env (cons x xs)
    | _ ↦ default ∷ []
  ]

  -- The choices of one model with each key.
  abbrev with_keys :
      Fields → Bool → Json → Fields → String → List (Json × Option String) → List ProviderChoice
  with_keys raw fallback provider_id provider model [] = []
  with_keys raw fallback provider_id provider model ((label, key) ∷ ks) =
      record {
        provider = text_of env provider_id;
        model = model;
        fallback_allowed = fallback;
        raw = raw;
        key_label = label;
        api_key = key;
        base_url = get_or "base_url" null provider;
        provider_type = get_or "type" null provider;
      }
      ∷ with_keys raw fallback provider_id provider model ks

  abbrev with_models :
      Fields
      → Bool
      → Json
      → Fields
      → List String
      → List (Json × Option String)
      → List ProviderChoice
  with_models raw fallback provider_id provider [] ks = []
  with_models raw fallback provider_id provider (m ∷ ms) ks =
      with_keys raw fallback provider_id provider m ks
      ++ with_models raw fallback provider_id provider ms ks

  -- `provider.get("enabled", True) is False`
  abbrev is_disabled : Fields → Bool
  is_disabled provider = elim (get_or "enabled" (bool true) provider) [ bool b ↦ not b | _ ↦ false ]

  -- The choices of one model reference.
  unfoldable pub choices_of_ref : Fields → Fields → Bool → Json → Result (List ProviderChoice)
  choices_of_ref config raw fallback ref = fields_at ref >>? λ model_ref.
      let provider_id = get_or "provider" null model_ref in
      let model = get_or "model" null model_ref in
      if not (truthy provider_id) || not (truthy model)
      then ok []
      else fields_at (get_or "providers" (obj end) config) >>? λ providers.
          get_under provider_id providers >>? λ found. fields_at found >>? λ provider.
          if is_disabled provider
          then ok []
          else configured_keys provider >>? λ keys. ok (
              with_models raw fallback provider_id provider
                (models_for_ref model_ref (text_of env model)) (keys_or_none keys))

  unfoldable pub choices_of_refs : Fields → Fields → Bool → List Json → Result (List ProviderChoice)
  choices_of_refs config raw fallback [] = ok []
  choices_of_refs config raw fallback (ref ∷ refs) =
      let rest = choices_of_refs config raw fallback refs in
      choices_of_ref config raw fallback ref >>? λ choices. rest >>? λ more. ok (choices ++ more)

  -- The primary model and, when a fallback is allowed and named, the secondary.
  unfoldable pub model_refs : Fields → Result (List Json)
  model_refs raw = index "primary" raw >>? λ primary. ok (
      if truthy (get_or "fallback_allowed" (bool true) raw) && truthy (get_or "secondary" null raw)
      then primary ∷ get_or "secondary" null raw ∷ []
      else primary ∷ [])

  unfoldable pub choices_of_agent : Fields → Json → Result (List ProviderChoice)
  choices_of_agent config entry = fields_at entry >>? λ raw. model_refs raw >>? λ refs.
      choices_of_refs config raw (truthy (get_or "fallback_allowed" (bool true) raw)) refs

  -- `_choices_for_agent`; a section `agent_models` that is no dict is a TypeError here.
  unfoldable pub choices_for_agent : Fields → String → Result (List ProviderChoice)
  choices_for_agent config agent = elim (get_or "agent_models" (obj end) config) [
    | obj agents ↦
        if contains agent agents
        then choices_of_agent config (get_or agent null agents)
        else raise (Exception.key_error ("No provider config for agent '" ⧺ agent ⧺ "'"))
    | _ ↦ raise (Exception.type_error "agent_models is not a dict")
  ]

  -- `choose_for_agent`
  unfoldable pub choose_for_agent : Fields → String → Result ProviderChoice
  choose_for_agent config agent = choices_for_agent config agent >>? λ choices. elim choices [
    | [] ↦ raise (Exception.key_error ("No provider config for agent '" ⧺ agent ⧺ "'"))
    | c ∷ cs ↦ ok c
  ]

-- ===== src/Providers/Completing.antt =====
-- `complete_json`; the network is a parameter.
use life_os_vnex.Prelude.{
  ℕ, String, Bool, false, not, Option, none, some, List, [], ◌∷◌, ◌++◌, if◌then◌else◌, ◌==◌,
}
use life_os_vnex.Prelude.Text.{◌⧺◌, take_text}
use life_os_vnex.Prelude.Json.{Json, null, str, obj, end, get_or, truthy}
use life_os_vnex.Prelude.Env.{Env, text_of}
use life_os_vnex.State.{Exception, Result, ok, raise}
use life_os_vnex.Providers.Values.{
  ProviderChoice, ProviderCompletion, fields_at, item_at, first_at, ◌>>?◌,
}

-- What comes of a request: a body and the time it took; the text of an error that is caught, which are
-- those of the network and of the JSON text; or an exception that is not caught, as for an address without
-- a scheme or a body that is not UTF-8.
pub data Reply : Type 0 where
  answered : Json → ℕ → Reply
  failed : String → Reply
  broken : Exception → Reply

-- `provider_type == "openai_compatible"` and the like.
abbrev is_text : Json → String → Bool
is_text (str s) t = s == t
is_text other t = false

abbrev has_key : Option String → Bool
has_key none = false
has_key (some k) = not (k == "")

-- `body.get("usage", {}) if isinstance(body, dict) else {}`
abbrev usage_of : Json → Json
usage_of (obj d) = get_or "usage" (obj end) d
usage_of other = obj end

-- Why a choice is passed over before a request is made.
unfoldable pub unusable : ProviderChoice → Option String
unusable c =
    if not (is_text c.provider_type "openai_compatible")
    then some (c.provider ⧺ ": not OpenAI-compatible")
    else if not (has_key c.api_key)
    then some (c.provider ⧺ ": no configured API key")
    else if not (truthy c.base_url)
    then some (c.provider ⧺ ": no base_url")
    else none

-- The request of a usable choice: its address is `base_url.rstrip('/')`, which only a text has.
unfoldable pub send_request : (ProviderChoice → Reply) → ProviderChoice → Reply
send_request respond c = elim c.base_url [
  | str url ↦ respond c
  | _ ↦ broken (Exception.attribute_error "object has no attribute 'rstrip'")
]

-- `"; ".join(errors)`
unfoldable pub join_errors : List String → String
join_errors [] = ""
join_errors (e ∷ []) = e
join_errors (e ∷ f ∷ es) = e ⧺ "; " ⧺ join_errors (f ∷ es)

module _ (env : Env) where
  -- The completion that is read from a body.
  unfoldable pub completion_of : ProviderChoice → Json → ℕ → Result ProviderCompletion
  completion_of c body ms = item_at "choices" body >>? λ choices. first_at choices >>? λ choice.
      item_at "message" choice >>? λ message. item_at "content" message >>? λ content.
      fields_at (usage_of body) >>? λ usage. ok (record {
        content = text_of env content;
        provider = c.provider;
        model = c.model;
        key_label = c.key_label;
        latency_ms = ms;
        input_tokens = get_or "prompt_tokens" null usage;
        output_tokens = get_or "completion_tokens" null usage;
      })

  -- The text that an error of a request is recorded with.
  abbrev pub failure_text : ProviderChoice → String → String
  failure_text c detail = c.provider ⧺ "/" ⧺ c.model ⧺ "/" ⧺ text_of env c.key_label ⧺ ": " ⧺ detail

  module _ (respond : ProviderChoice → Reply) where
    -- The loop over the choices, with the errors so far.
    unfoldable pub try_choices :
        String → List String → List ProviderChoice → Result ProviderCompletion
    try_choices agent errors [] = raise (
        Exception.runtime_error
          ("No provider route succeeded for " ⧺ agent ⧺ ": " ⧺ take_text 1200 (join_errors errors)))
    try_choices agent errors (c ∷ cs) = elim (unusable c) [
      | some e ↦ try_choices agent (errors ++ e ∷ []) cs
      | none ↦ elim (send_request respond c) [
        | broken e ↦ raise e
        | failed detail ↦ try_choices agent (errors ++ failure_text c detail ∷ []) cs
        | answered body ms ↦ completion_of c body ms
      ]
    ]

    -- `complete_json`, over the choices of the agent.
    unfoldable pub complete_json : String → Result (List ProviderChoice) → Result ProviderCompletion
    complete_json agent choices = choices >>? λ cs. try_choices agent [] cs

-- ===== src/Providers/Serving.antt =====
-- `complete_json` against a specification: the first choice that can be used and answers.
use life_os_vnex.Prelude.{ℕ, String, ◌≡◌, none, some, List, [], ◌∷◌, ◌++◌}
use life_os_vnex.Prelude.Text.{◌⧺◌, take_text}
use life_os_vnex.Prelude.Json.{Json}
use life_os_vnex.Prelude.Env.{Env}
use life_os_vnex.State.{Exception, Result, raise}
use life_os_vnex.Providers.{
  ProviderChoice, ProviderCompletion, Reply, answered, failed, broken, send_request, unusable,
  failure_text, completion_of, try_choices, join_errors,
}

-- What ends the search: no choice is left, an answer, or an exception that is not caught.
pub data Found : Type 0 where
  nothing : Found
  answer : ProviderChoice → Json → ℕ → Found
  stopped : Exception → Found

-- How the choices are gone through: each one that is passed over leaves its reason, in order, and the
-- first that is usable and answers, or whose request raises past the loop, ends the search.
pub data IsServed (env : Env) (respond : ProviderChoice → Reply)
    : List ProviderChoice → List String → Found → Type 0 where
  exhausted : IsServed env respond [] [] nothing
  answering :
      (c : ProviderChoice) (cs : List ProviderChoice) (body : Json) (ms : ℕ)
      → unusable c ≡ none
      → send_request respond c ≡ answered body ms
      → IsServed env respond (c ∷ cs) [] (answer c body ms)
  stopping :
      (c : ProviderChoice) (cs : List ProviderChoice) (e : Exception)
      → unusable c ≡ none
      → send_request respond c ≡ broken e
      → IsServed env respond (c ∷ cs) [] (stopped e)
  skipping :
      (c : ProviderChoice) (cs : List ProviderChoice) (reason : String) (errors : List String)
      (outcome : Found)
      → unusable c ≡ some reason
      → IsServed env respond cs errors outcome
      → IsServed env respond (c ∷ cs) (reason ∷ errors) outcome
  failing :
      (c : ProviderChoice) (cs : List ProviderChoice) (detail : String) (errors : List String)
      (outcome : Found)
      → unusable c ≡ none
      → send_request respond c ≡ failed detail
      → IsServed env respond cs errors outcome
      → IsServed env respond (c ∷ cs) (failure_text env c detail ∷ errors) outcome

-- What the search ends in: what is read from the answer, the exception, or all the reasons.
abbrev pub ending : Env → String → List String → Found → Result ProviderCompletion
ending env agent errors (answer c body ms) = completion_of env c body ms
ending env agent errors (stopped e) = raise e
ending env agent errors nothing = raise (
    Exception.runtime_error
      ("No provider route succeeded for " ⧺ agent ⧺ ": " ⧺ take_text 1200 (join_errors errors)))

module _ (env : Env) (respond : ProviderChoice → Reply) (agent : String) where
  record Serves (before : List String) (cs : List ProviderChoice) : Type 0 where
    errors : List String
    outcome : Found
    served : IsServed env respond cs errors outcome
    result : try_choices env respond agent before cs ≡ ending env agent (before ++ errors) outcome

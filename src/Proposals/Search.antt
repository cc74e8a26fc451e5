-- ===== src/Proposals/Search.antt =====
-- `_find_life_item_for_completion` and the query for open proposals. Rows with the same sort key keep
-- the order of insertion, which the database leaves open.
use life_os_vnex.Prelude.{
  ℕ, String, Bool, true, false, ◌&&◌, Option, none, some, List, [], ◌∷◌, if◌then◌else◌, ◌==◌, ltb,
  take, all,
}
use Prim.Native.Char.{code}
use life_os_vnex.Prelude.Text.{◌⧺◌, strip, lower, has, member, is_space}
use life_os_vnex.Prelude.Json.{Fields, null, str, get_or, or_json}
use life_os_vnex.Prelude.Env.{Env, text_of}
use life_os_vnex.State.{
  LifeItem, PendingActionProposal, Exception, Result, ok, raise, Action, pure, gets, ◌>>=◌, utc_now,
}
unfoldable pub use life_os_vnex.Prelude.Sorting.{insert_by, sort_by, filter_by}
use life_os_vnex.Bus.{dict_of}
use life_os_vnex.Planner.{dict_or_empty}
use life_os_vnex.Proposals.Values.{open_statuses, text_or}

-- `status.in_(["open", "pending", "todo"])`
abbrev pub is_open_item : LifeItem → Bool
is_open_item r = elim r.status [ str s ↦ member s ("open" ∷ "pending" ∷ "todo" ∷ []) | _ ↦ false ]

-- `row.title.lower()`
unfoldable pub title_of : LifeItem → Result String
title_of r = elim r.title [
  | str s ↦ ok (lower s)
  | _ ↦ raise (Exception.attribute_error "object has no attribute 'lower'")
]

-- The first row whose title satisfies the test.
unfoldable pub first_title : (String → Bool) → List LifeItem → Result (Option LifeItem)
unfolding title_of
first_title p [] = ok none
first_title p (r ∷ rs) =
    let rest = first_title p rs in
    elim (title_of r) [ raise e ↦ raise e | ok t ↦ if p t then ok (some r) else rest ]

-- `query.split()`: `word` is what was read of the present word.
unfoldable pub split_from : String → String → List String
unfolding is_space
split_from word String.[] = if word == "" then [] else word ∷ []
split_from word (String.◌∷◌ c s) =
    if is_space (code c)
    then (if word == "" then split_from "" s else word ∷ split_from "" s)
    else split_from (word ⧺ String.◌∷◌ c "") s

abbrev pub longer_than_two : String → Bool
longer_than_two (String.◌∷◌ a (String.◌∷◌ b (String.◌∷◌ c s))) = true
longer_than_two _ = false

-- `tokens and all(token in title for token in tokens)`
abbrev pub has_all : List String → String → Bool
has_all [] title = false
has_all (t ∷ ts) title = all (has title) (t ∷ ts)

-- The rows that the query of the search returns.
unfoldable pub candidates : List LifeItem → List LifeItem
unfolding sort_by filter_by
candidates items =
    take 50 (sort_by (λ a b. ltb b.updated_at a.updated_at) (filter_by is_open_item items))

-- The two passes over the rows.
unfoldable pub match_item : String → List LifeItem → Result (Option LifeItem)
unfolding first_title split_from filter_by
match_item query rows = elim (first_title (λ title. has title query) rows) [
  | raise e ↦ raise e
  | ok (some r) ↦ ok (some r)
  | ok none ↦ first_title (has_all (filter_by longer_than_two (split_from "" query))) rows
]

module _ (env : Env) where
  unfoldable pub completion_query : Fields → Result String
  completion_query draft = elim (dict_of env (dict_or_empty "lookup" draft)) [
    | raise e ↦ raise e
    | ok lookup ↦
        ok (lower (strip (text_of env (or_json (get_or "title_contains" null lookup) (str "")))))
  ]

  unfoldable pub find_item : Fields → List LifeItem → Result (Option LifeItem)
  unfolding completion_query candidates match_item
  find_item draft items = elim (completion_query draft) [
    | raise e ↦ raise e
    | ok query ↦ if query == "" then ok none else match_item query (candidates items)
  ]

  -- The test of `open_pending_action_proposals`.
  abbrev pub is_open_at : String → ℕ → PendingActionProposal → Bool
  is_open_at session_id now r =
      elim r.session_id [ none ↦ false | some s ↦ s == session_id ]
      && (member r.status open_statuses && elim r.expires_at [ none ↦ true | some t ↦ ltb now t ])

  unfoldable pub open_pending : Option String → ℕ → Action (List PendingActionProposal)
  unfolding sort_by filter_by utc_now
  open_pending session_id limit = elim (text_or session_id "" == "") [
    | true ↦ pure []
    | false ↦ do
      now ← utc_now env
      gets (λ s. take limit (
          sort_by (λ a b. ltb a.created_at b.created_at)
            (filter_by (is_open_at (text_or session_id "") now) s.proposals)))
  ]

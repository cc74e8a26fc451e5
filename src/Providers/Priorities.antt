-- ===== src/Providers/Priorities.antt =====
-- The order in which the keys of a provider are tried.
use life_os_vnex.Prelude.{
  String, true, false, ◌≡◌, refl, Option, List, [], ◌∷◌, Bool-cases, inl, inr, arith,
}
use life_os_vnex.Prelude.Sorting.{sort_by, insert_by}
use life_os_vnex.Prelude.Json.{Json, Whole, plus, minus, Items, Fields, obj, arr, nil, end, get_or}
use life_os_vnex.Prelude.Env.{Env}
use mathlib.Core.List.{Perm, Permᴰ}
use mathlib.Core.List.Permᴰ
use life_os_vnex.Bus.{list_of}
use life_os_vnex.State.{Result, ok}
use life_os_vnex.Providers.{
  ConfiguredKey, sooner, lt_whole, configured_keys, with_priorities, set_keys, fields_at,
}

lt_whole_asymmetric : (a b : Whole) → lt_whole a b ≡ true → lt_whole b a ≡ false
lt_whole_asymmetric (plus m) (plus n) h = ground arith
lt_whole_asymmetric (plus m) (minus n) h = ground arith
lt_whole_asymmetric (minus m) (plus n) h = refl
lt_whole_asymmetric (minus m) (minus n) h = ground arith

-- What stands first in a list is not of a smaller priority number.
abbrev Follows : ConfiguredKey → List ConfiguredKey → Type 0
Follows j [] = Unit
Follows j (k ∷ ks) = sooner k j ≡ false

-- No key stands right behind one with a greater priority number.
abbrev pub Ordered : List ConfiguredKey → Type 0
Ordered [] = Unit
Ordered (j ∷ ks) = Follows j ks × Ordered ks

Follows-insert :
    (j k : ConfiguredKey) (ks : List ConfiguredKey)
    → sooner k j ≡ false
    → Follows j ks
    → Follows j (insert_by sooner k ks)
unfolding insert_by
Follows-insert j k [] h f = h
Follows-insert j k (l ∷ ls) h f = elim (Bool-cases (sooner l k)) [ inl e ↦ rw e f | inr e ↦ rw e h ]

Ordered-insert :
    (k : ConfiguredKey) (ks : List ConfiguredKey) → Ordered ks → Ordered (insert_by sooner k ks)
unfolding insert_by
Ordered-insert k [] o = (tt, tt)
Ordered-insert k (l ∷ ls) (f, o) = elim (Bool-cases (sooner l k)) [
  | inl e ↦
      rw e (
        Follows-insert l k ls (lt_whole_asymmetric l.priority k.priority e) f,
        Ordered-insert k ls o,
      )
  | inr e ↦ rw e (e, (f, o))
]

Ordered-sort : (ks : List ConfiguredKey) → Ordered (sort_by sooner ks)
unfolding sort_by
Ordered-sort [] = tt
Ordered-sort (k ∷ ks) = Ordered-insert k (sort_by sooner ks) (Ordered-sort ks)

insert-Perm : (k : ConfiguredKey) (ks : List ConfiguredKey) → Permᴰ (insert_by sooner k ks) (k ∷ ks)
unfolding insert_by
insert-Perm k [] = Permᴰ.refl _
insert-Perm k (l ∷ ls) = elim (Bool-cases (sooner l k)) [
  | inl e ↦ rw e (Permᴰ.trans (Permᴰ.cons refl (insert-Perm k ls)) (Permᴰ.swap refl refl))
  | inr e ↦ rw e (Permᴰ.refl _)
]

sort-Perm : (ks : List ConfiguredKey) → Permᴰ (sort_by sooner ks) ks
unfolding sort_by
sort-Perm [] = Permᴰ.nil
sort-Perm (k ∷ ks) =
    Permᴰ.trans (insert-Perm k (sort_by sooner ks)) (Permᴰ.cons refl (sort-Perm ks))

module _ (env : Env) (getenv : String → Option String) (int_of : Json → Result Whole) where
  -- Whatever keys a provider is configured with, those that are tried are the entries of some
  -- rearrangement of the list in which no priority number goes down, less those without a value.
  pub configured_keys-Ordered :
      (provider auth : Fields) (items : Items) (entries : List ConfiguredKey)
      → fields_at (get_or "auth" (obj end) provider) ≡ ok auth
      → list_of (get_or "keys" (arr nil) auth) ≡ ok items
      → with_priorities env getenv int_of items ≡ ok entries
      → (ks : List ConfiguredKey) × Ordered ks
        × Perm ks entries
        × (configured_keys env getenv int_of provider ≡ ok (set_keys env getenv int_of ks))
  unfolding configured_keys
  configured_keys-Ordered provider auth items entries a b c = (
    sort_by sooner entries,
    Ordered-sort entries,
    ∣ sort-Perm entries ∣₁,
    rw (configured_keys, a, b, c) refl,
  )

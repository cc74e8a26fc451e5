-- ===== src/Prelude/Sorting.antt =====
-- `sorted` and the filter of a comprehension.
use mathlib.Core.Bool.{Bool}
use mathlib.Core.List.{List, [], ◌∷◌}
use life_os_vnex.Prelude.Tests.{if◌then◌else◌}

-- A stable sort: `before a b` says that `a` comes first, and is false of equals.
unfoldable pub insert_by {ℓ} : {A : Type ℓ} → (A → A → Bool) → A → List A → List A
insert_by before a [] = a ∷ []
insert_by before a (b ∷ bs) = if before b a then b ∷ insert_by before a bs else a ∷ b ∷ bs

unfoldable pub sort_by {ℓ} : {A : Type ℓ} → (A → A → Bool) → List A → List A
unfolding insert_by
sort_by before [] = []
sort_by before (a ∷ xs) = insert_by before a (sort_by before xs)

unfoldable pub filter_by {ℓ} : {A : Type ℓ} → (A → Bool) → List A → List A
filter_by p [] = []
filter_by p (a ∷ xs) = if p a then a ∷ filter_by p xs else filter_by p xs

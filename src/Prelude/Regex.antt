-- ===== src/Prelude/Regex.antt =====
-- The part of Python's `re` that the program's patterns use: a backtracking matcher with ordered
-- choice, greedy and lazy repetition, groups, `\b`, `^` and `$`. Case is ignored, `\d` and `\w` read ASCII.
use Prim.Native.Nat.{ℕ, zero, suc, ◌+◌, ◌-◌}
use Prim.Native.Char.{Char, code}
use Prim.Native.String.{String, [], ◌∷◌, count}
use mathlib.Core.Bool.{Bool, true, false, ◌&&◌, ◌||◌, xor, not}
use mathlib.Core.Option.{Option, none, some}
use mathlib.Core.List.{List}
use life_os_vnex.Prelude.Tests.{eqb, leb, if◌then◌else◌, is_some}
use life_os_vnex.Prelude.Text.{◌⧺◌, is_space, take_text}

pub data Re : Type 0 where
  eps : Re
  text : String → Re
  set : (ℕ → Bool) → Re
  seq alt : Re → Re → Re
  star lazy : Re → Re
  edge begin dollar finish : Re
  group : ℕ → Re → Re

-- A place in the text: the character before it, what follows, and the groups closed so far.
pub record Point : Type 0 where
  pub before : Option ℕ
  pub rest : String
  pub groups : List (ℕ × String)

unfoldable pub is_digit : ℕ → Bool
is_digit n = leb 48 n && leb n 57

pub is_word : ℕ → Bool
unfolding is_digit
is_word n = is_digit n || (leb 65 n && leb n 90) || (leb 97 n && leb n 122) || eqb n 95

abbrev code_is_word : Option ℕ → Bool
code_is_word none = false
code_is_word (some n) = is_word n

abbrev pub first_code : String → Option ℕ
first_code [] = none
first_code (c ∷ s) = some (code c)

-- One character that passes the test.
step : (ℕ → Bool) → (Point → Option Point) → Point → String → Option Point
step ok k p [] = none
step ok k p (c ∷ s) = elim (ok (code c)) [
  | true ↦ k (record p { before = some (code c); rest = s })
  | false ↦ none
]

abbrev fold : ℕ → ℕ
fold n = if leb 65 n && leb n 90 then n + 32 else n

-- A text of the pattern, which is written in lower case.
literal : String → (Point → Option Point) → Point → Option Point
unfolding step
literal [] k p = k p
literal (d ∷ t) k p = step (λ n. eqb (fold n) (code d)) (literal t k) p p.rest

at_dollar : String → Bool
at_dollar [] = true
at_dollar (c ∷ []) = eqb (code c) 10
at_dollar (c ∷ d ∷ s) = false

-- Up to `fuel` rounds; each round that counts consumes a character, so the length of the text is enough.
greedy :
    ℕ
    → ((Point → Option Point) → Point → Option Point)
    → (Point → Option Point)
    → Point
    → Option Point
greedy zero m k p = k p
greedy (suc fuel) m k p = elim (m (greedy fuel m k) p) [ some q ↦ some q | none ↦ k p ]

reluctant :
    ℕ
    → ((Point → Option Point) → Point → Option Point)
    → (Point → Option Point)
    → Point
    → Option Point
reluctant zero m k p = k p
reluctant (suc fuel) m k p = elim (k p) [ some q ↦ some q | none ↦ m (reluctant fuel m k) p ]

abbrev captured : ℕ → Point → Point → Point
captured n p q = record q {
  groups = List.◌∷◌ (n, take_text (count p.rest - count q.rest) p.rest) q.groups;
}

when : Bool → (Point → Option Point) → Point → Option Point
when true k p = k p
when false k p = none

-- The first match in the order of the backtracking, handed to what follows.
run : Re → (Point → Option Point) → Point → Option Point
unfolding literal step at_dollar greedy reluctant is_word when
run Re.eps k p = k p
run (Re.text t) k p = literal t k p
run (Re.set ok) k p = step ok k p p.rest
run (Re.seq a b) k p = run a (run b k) p
run (Re.alt a b) k p = elim (run a k p) [ some q ↦ some q | none ↦ run b k p ]
run (Re.star a) k p = greedy (count p.rest) (run a) k p
run (Re.lazy a) k p = reluctant (count p.rest) (run a) k p
run Re.edge k p = when (xor (code_is_word p.before) (code_is_word (first_code p.rest))) k p
run Re.begin k p = when (not (is_some p.before)) k p
run Re.dollar k p = when (at_dollar p.rest) k p
run Re.finish k p = when (not (is_some (first_code p.rest))) k p
run (Re.group n a) k p = run a (λ q. k (captured n p q)) p

-- What `search` finds: the text before the match, the match's start and its end.
pub record Found : Type 0 where
  pub skipped : String
  pub at : Point
  pub after : Point

push : Char → Option Found → Option Found
push c none = none
push c (some f) = some (record f { skipped = c ∷ f.skipped })

abbrev point : Option ℕ → String → Point
point before s = record { before = before; rest = s; groups = List.[] }

search_from : Re → Option ℕ → String → Option Found
unfolding run push
search_from r before [] = elim (run r some (point before [])) [
  | none ↦ none
  | some q ↦ some (record { skipped = []; at = point before []; after = q })
]
search_from r before (c ∷ s) = elim (run r some (point before (c ∷ s))) [
  | none ↦ push c (search_from r (some (code c)) s)
  | some q ↦ some (record { skipped = []; at = point before (c ∷ s); after = q })
]

-- `r.search(s)`
unfoldable pub find_match : Re → String → Option Found
unfolding search_from
find_match r s = search_from r none s

-- `bool(r.search(s))`
unfoldable pub matches : Re → String → Bool
unfolding find_match
matches r s = is_some (find_match r s)

-- `r.fullmatch(s)`
unfoldable pub full_match : Re → String → Bool
unfolding run
full_match r s = is_some (run (Re.seq r Re.finish) some (point none s))

group_in : ℕ → List (ℕ × String) → Option String
group_in n List.[] = none
group_in n (List.◌∷◌ (m, t) gs) = if eqb m n then some t else group_in n gs

-- `match.group(n)`
unfoldable pub group_of : ℕ → Found → Option String
unfolding group_in
group_of n f = group_in n f.after.groups

-- The replacements from one place on; each consumes a character, so the length is enough.
sub_from : ℕ → Re → Option ℕ → String → String
unfolding search_from
sub_from zero r before s = s
sub_from (suc fuel) r before s = elim (search_from r before s) [
  | none ↦ s
  | some f ↦ f.skipped ⧺ sub_from fuel r f.after.before f.after.rest
]

-- `re.sub(r, "", s)`, for a pattern that matches no empty text.
unfoldable pub remove : Re → String → String
unfolding sub_from
remove r s = sub_from (suc (count s)) r none s

-- Shorthands of the pattern language.
abbrev pub optional : Re → Re
optional r = Re.alt r Re.eps

abbrev pub one_or_more : Re → Re
one_or_more r = Re.seq r (Re.star r)

abbrev pub space : Re
space = Re.set is_space

abbrev pub digit : Re
digit = Re.set is_digit

abbrev pub seqs : List Re → Re
seqs List.[] = Re.eps
seqs (List.◌∷◌ r List.[]) = r
seqs (List.◌∷◌ r (List.◌∷◌ q rs)) = Re.seq r (seqs (List.◌∷◌ q rs))

-- `a|b|…`
abbrev pub choice : List String → Re
choice List.[] = Re.eps
choice (List.◌∷◌ t List.[]) = Re.text t
choice (List.◌∷◌ t (List.◌∷◌ u ts)) = Re.alt (Re.text t) (choice (List.◌∷◌ u ts))

-- `\b(a|b|…)\b`
abbrev pub words : List String → Re
words ts = seqs (List.◌∷◌ Re.edge (List.◌∷◌ (choice ts) (List.◌∷◌ Re.edge List.[])))

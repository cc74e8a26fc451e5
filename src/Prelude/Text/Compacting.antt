-- ===== src/Prelude/Text/Compacting.antt =====
-- A compacted text is stripped and compact already, and compacting commutes with `lower`.
use Prim.Native.Nat.{ℕ}
use Prim.Native.Char.{Char, code}
use Prim.Native.String.{String, [], ◌∷◌}
use mathlib.Core.Path.{◌≡◌, refl, ap}
use mathlib.Core.Logic.{◌≢◌, inl, inr}
use mathlib.Core.Bool.{Bool, true, false, not, ◌&&◌, false≢true}
use native.Mathlib.Omega.{arith}
use life_os_vnex.Prelude.Tests.{Bool-cases}
use text.Mathlib.Text.{◌==◌}
use text.Mathlib.TextEquality.{eq_iff}
use life_os_vnex.Prelude.Text.{
  is_space, lower, translate, lstrip, rstrip, rstrip_by, strip, compact, Gap, start, word, gap,
  compact_from, next_gap, emit,
}

-- `str.isspace` of no character of the text.
abbrev solid : String → Bool
solid [] = true
solid (c ∷ s) = not (is_space (code c)) && solid s

is_space-ap : (m n : ℕ) → m ≡ n → is_space m ≡ is_space n
is_space-ap m n h = ap is_space h

is_space-translate :
    (from to : String) (c : Char)
    → solid from ≡ true
    → solid to ≡ true
    → is_space (code (translate from to c)) ≡ is_space (code c)
unfolding translate
is_space-translate [] to c h k = refl
is_space-translate (a ∷ from) [] c h k = refl
is_space-translate (a ∷ from) (b ∷ to) c h k =
    ground (arith, is_space-ap (code a) (code c), is_space-translate from to c)

each : (Char → Char) → String → String
each f [] = []
each f (c ∷ s) = f c ∷ each f s

module _ (f : Char → Char) (spaces : (c : Char) → is_space (code (f c)) ≡ is_space (code c))
    (blank : f " " ≡ " ") where
  each-emit :
      (m : Gap) (b : Bool) (c : Char) (s : String)
      → each f (emit m b c s) ≡ emit m b (f c) (each f s)
  unfolding each emit
  each-emit start true c s = refl
  each-emit word true c s = refl
  each-emit gap true c s = refl
  each-emit start false c s = refl
  each-emit word false c s = refl
  each-emit gap false c s = rw blank refl

  each-compact_from : (m : Gap) (s : String) → each f (compact_from m s) ≡ compact_from m (each f s)
  unfolding each compact_from
  each-compact_from m [] = refl
  each-compact_from m (c ∷ s) =
      rw
        (
          spaces c,
          each-emit m (is_space (code c)) c (compact_from (next_gap m (is_space (code c))) s),
          each-compact_from (next_gap m (is_space (code c))) s,
        )
        refl

abbrev is_nil : String → Bool
is_nil [] = true
is_nil (c ∷ s) = false

cons-is-not-nil : (c : Char) (s : String) → (c ∷ s) ≢ ""
cons-is-not-nil c s h = false≢true (ap is_nil h)

cons-nonempty : (c : Char) (s : String) → (c ∷ s == "") ≡ false
cons-nonempty c s = elim (Bool-cases (c ∷ s == "")) [
  | inl e ↦ absurd (cons-is-not-nil c s ((eq_iff (c ∷ s) "").0 e))
  | inr e ↦ e
]

-- A compacted text does not end in white space.
rstrip-compact_from : (m : Gap) (s : String) → rstrip (compact_from m s) ≡ compact_from m s
unfolding rstrip rstrip_by compact_from emit next_gap
rstrip-compact_from m [] = refl
rstrip-compact_from start (c ∷ s) = elim (Bool-cases (is_space (code c))) [
  | inl e ↦ rw e (rstrip-compact_from start s)
  | inr e ↦ rw (e, rstrip-compact_from word s, e) refl
]
rstrip-compact_from word (c ∷ s) = elim (Bool-cases (is_space (code c))) [
  | inl e ↦ rw e (rstrip-compact_from gap s)
  | inr e ↦ rw (e, rstrip-compact_from word s, e) refl
]
rstrip-compact_from gap (c ∷ s) = elim (Bool-cases (is_space (code c))) [
  | inl e ↦ rw e (rstrip-compact_from gap s)
  | inr e ↦ rw (e, rstrip-compact_from word s, e, cons-nonempty c (compact_from word s)) refl
]

lstrip-compact : (s : String) → lstrip (compact s) ≡ compact s
unfolding compact lstrip compact_from emit next_gap
lstrip-compact [] = refl
lstrip-compact (c ∷ s) = elim (Bool-cases (is_space (code c))) [
  | inl e ↦ rw e (lstrip-compact s)
  | inr e ↦ rw (e, e) refl
]

-- Compacting again from the state that the text starts in.
abbrev begins : Gap → Gap
begins start = start
begins m = word

compact_from-twice :
    (m : Gap) (s : String) → compact_from (begins m) (compact_from m s) ≡ compact_from m s
unfolding compact_from emit next_gap
compact_from-twice start [] = refl
compact_from-twice word [] = refl
compact_from-twice gap [] = refl
compact_from-twice start (c ∷ s) = elim (Bool-cases (is_space (code c))) [
  | inl e ↦ rw e (compact_from-twice start s)
  | inr e ↦ rw (e, e, compact_from-twice word s) refl
]
compact_from-twice word (c ∷ s) = elim (Bool-cases (is_space (code c))) [
  | inl e ↦ rw e (compact_from-twice gap s)
  | inr e ↦ rw (e, e, compact_from-twice word s) refl
]
compact_from-twice gap (c ∷ s) = elim (Bool-cases (is_space (code c))) [
  | inl e ↦ rw e (compact_from-twice gap s)
  | inr e ↦ rw (e, e, compact_from-twice word s) refl
]

lower_char : Char → Char
unfolding translate
lower_char c = translate "ABCDEFGHIJKLMNOPQRSTUVWXYZ" "abcdefghijklmnopqrstuvwxyz" c

lower-is-each : (s : String) → lower s ≡ each lower_char s
unfolding lower lower_char each
lower-is-each [] = refl
lower-is-each (c ∷ s) = rw (lower-is-each s) refl

is_space-lower_char : (c : Char) → is_space (code (lower_char c)) ≡ is_space (code c)
unfolding lower_char is_space
is_space-lower_char c =
    is_space-translate "ABCDEFGHIJKLMNOPQRSTUVWXYZ" "abcdefghijklmnopqrstuvwxyz" c refl refl

lower_blank : lower_char " " ≡ " "
unfolding lower_char
lower_blank = refl

-- What `norm` makes of a text that was stripped and compacted before.
pub compact-normal :
    (s : String) → compact (lower (strip (compact (strip s)))) ≡ compact (lower (strip s))
unfolding compact strip
compact-normal s =
    rw
      (
        lstrip-compact (strip s),
        rstrip-compact_from start (strip s),
        lower-is-each (compact (strip s)),
        lower-is-each (strip s),
        each-compact_from lower_char is_space-lower_char lower_blank start (strip s),
        compact_from-twice start (each lower_char (strip s)),
      )
      refl

-- ===== src/Prelude/Text.antt =====
-- Python's operations on `str` that the program calls. A text is a native `String`, read character
-- by character. Case is mapped on the ASCII letters.
use Prim.Native.Nat.{ℕ, zero, suc}
use Prim.Native.Char.{Char, code}
use Prim.Native.String.{String, [], ◌∷◌}
use Prim.Native.String
use mathlib.Core.Bool.{Bool, true, false, ◌&&◌, ◌||◌}
use mathlib.Core.List.{List}
use life_os_vnex.Prelude.Tests.{eqb, leb, if◌then◌else◌}
use life_os_vnex.Prelude.Lists.{any, all}
use text.Mathlib.Text.{◌==◌}
use text.Mathlib.TextEquality.{eq_iff}
use mathlib.Core.Path.{◌≡◌}
use native.Mathlib.Omega.{arith}
pub mod Compacting

infixr 65 ◌⧺◌
abbrev pub ◌⧺◌ : String → String → String
s ⧺ t = String.◌++◌ s t

-- `str.isspace`, which `split` and `strip` go by.
unfoldable pub is_space : ℕ → Bool
is_space n =
    eqb n 32
    || (leb 9 n && leb n 13)
    || (leb 28 n && leb n 31)
    || eqb n 0x85
    || eqb n 0xa0
    || eqb n 0x1680
    || (leb 0x2000 n && leb n 0x200a)
    || eqb n 0x2028
    || eqb n 0x2029
    || eqb n 0x202f
    || eqb n 0x205f
    || eqb n 0x3000

-- The character that stands in the second text where `c` stands in the first.
pub translate : String → String → Char → Char
translate [] to c = c
translate (a ∷ from) [] c = c
translate (a ∷ from) (b ∷ to) c = if eqb (code a) (code c) then b else translate from to c

-- `s.lower()`
unfoldable pub lower : String → String
unfolding translate
lower [] = []
lower (c ∷ s) = translate "ABCDEFGHIJKLMNOPQRSTUVWXYZ" "abcdefghijklmnopqrstuvwxyz" c ∷ lower s

-- `s.upper()`
unfoldable pub upper : String → String
unfolding translate
upper [] = []
upper (c ∷ s) = translate "abcdefghijklmnopqrstuvwxyz" "ABCDEFGHIJKLMNOPQRSTUVWXYZ" c ∷ upper s

-- `s.startswith(t)`
unfoldable pub starts_with : String → String → Bool
starts_with s [] = true
starts_with [] (d ∷ t) = false
starts_with (c ∷ s) (d ∷ t) = eqb (code c) (code d) && starts_with s t

-- `t in s`
unfoldable pub has : String → String → Bool
unfolding starts_with
has [] t = starts_with [] t
has (c ∷ s) t = starts_with (c ∷ s) t || has s t

-- `any(token in s for token in tokens)`
unfoldable pub has_any : String → List String → Bool
unfolding has
has_any s tokens = any (has s) tokens

-- `s in {…}`
unfoldable pub member : String → List String → Bool
member s List.[] = false
member s (List.◌∷◌ t ts) = s == t || member s ts

-- What holds of each text of a set holds of a member.
pub member-all :
    (p : String → Bool) (s : String) (ts : List String)
    → all p ts ≡ true
    → member s ts ≡ true
    → p s ≡ true
unfolding member
member-all p s List.[] h m = cc
member-all p s (List.◌∷◌ t ts) h m = ground (arith, eq_iff s t, member-all p s ts)

-- `s.lstrip()`
pub lstrip : String → String
unfolding is_space
lstrip [] = []
lstrip (c ∷ s) = if is_space (code c) then lstrip s else c ∷ s

-- Drops the characters at the end that satisfy the test.
unfoldable pub rstrip_by : (ℕ → Bool) → String → String
rstrip_by p [] = []
rstrip_by p (c ∷ s) = let rest = rstrip_by p s in if p (code c) && rest == "" then [] else c ∷ rest

-- `s.rstrip()`
unfoldable pub rstrip : String → String
unfolding rstrip_by is_space
rstrip = rstrip_by is_space

-- `s.strip()`
unfoldable pub strip : String → String
unfolding rstrip lstrip
strip s = rstrip (lstrip s)

-- `s[:n]`
unfoldable pub take_text : ℕ → String → String
take_text zero s = []
take_text (suc n) [] = []
take_text (suc n) (c ∷ s) = c ∷ take_text n s

-- Where `" ".join(s.split())` stands: before the first word, in one, or past its end.
pub data Gap : Type 0 where
  start word gap : Gap

next_gap : Gap → Bool → Gap
next_gap start true = start
next_gap word true = gap
next_gap gap true = gap
next_gap m false = word

-- One character, in front of what follows it.
emit : Gap → Bool → Char → String → String
emit m true c rest = rest
emit gap false c rest = " " ∷ c ∷ rest
emit m false c rest = c ∷ rest

compact_from : Gap → String → String
unfolding is_space next_gap emit
compact_from m [] = []
compact_from m (c ∷ s) =
    let space = is_space (code c) in emit m space c (compact_from (next_gap m space) s)

-- `" ".join(s.split())`
unfoldable pub compact : String → String
unfolding compact_from
compact = compact_from start

-- ===== src/Orchestrator/Amount.antt =====
-- `AMOUNT_RE` and what `_finance_draft` reads from its match.
use Prim.Native.Nat.{ℕ, ◌+◌, ◌*◌, ◌-◌, ◌/◌}
use Prim.Native.Char.{code}
use life_os_vnex.Prelude.{
  String, none, some, [], ◌∷◌, Bool, true, false, eqb, ◌||◌, ◌==◌, if◌then◌else◌, or_default,
}
use life_os_vnex.Prelude.Text.{upper}
use life_os_vnex.Prelude.Regex.{
  Re, is_digit, optional, one_or_more, space, digit, seqs, choice, find_match, group_of,
}

-- `(?P<currency>MAD|USD|EUR|€|\$)?\s*(?P<amount>\d+(?:[.,]\d{1,2})?)`: group 1 and group 2.
abbrev pub amount_re : Re
amount_re = seqs (
    optional (Re.group 1 (choice ("mad" ∷ "usd" ∷ "eur" ∷ "€" ∷ "$" ∷ [])))
    ∷ Re.star space
    ∷ Re.group 2 (
        Re.seq (one_or_more digit)
          (optional (seqs (Re.set (λ n. eqb n b'.' || eqb n b',') ∷ digit ∷ optional digit ∷ []))))
    ∷ [])

-- The millionths of `float(text.replace(",", "."))` for a text of that group: `unit` is the worth of
-- the next digit past the point, and 0 before it.
decimal_from : ℕ → ℕ → String → ℕ
unfolding is_digit
decimal_from acc unit String.[] = acc
decimal_from acc unit (String.◌∷◌ c s) =
    decimal_from
      (if is_digit (code c)
        then (if eqb unit 0 then acc * 10 + (code c - 48) * 1000000 else acc + (code c - 48) * unit)
        else acc)
      (if is_digit (code c) then unit / 10 else 100000) s

pub record Money : Type 0 where
  -- millionths; 0 where nothing matched
  pub value : ℕ
  pub matched : Bool
  pub currency : String

-- The symbols that stand for a currency.
currency_of : String → String
unfolding upper
currency_of token = let t = upper token in if t == "€" then "EUR" else if t == "$" then "USD" else t

unfoldable pub parse_amount : String → Money
unfolding decimal_from currency_of
parse_amount text = elim (find_match amount_re text) [
  | none ↦ record { value = 0; matched = false; currency = currency_of "MAD" }
  | some m ↦ record {
    value = decimal_from 0 0 (or_default (group_of 2 m) "");
    matched = true;
    currency = currency_of (or_default (group_of 1 m) "MAD");
  }
]

-- ===== src/Sessions/Bounds.antt =====
-- Bounded iteration caps and the rows of sessions that are looked up.
use life_os_vnex.Prelude.{
  ℕ, ◌≤◌, String, Bool, inl, inr, Option, none, some, List, [], ◌∷◌, ◌==◌, leb, arith, All,
  Bool-cases,
}
use life_os_vnex.Prelude.Json.{Whole, plus, minus}
use life_os_vnex.State.{AgentSession, Exception, Result, ok, raise, find_row, update_row}
use life_os_vnex.Proposals.{filter_by, sort_by, text_or}
use life_os_vnex.Proposals.Listing.{sort_by-All}
use life_os_vnex.Sessions.{
  session_key, latest, first, later, by_thread, by_channel, on_thread, on_channel, if_none,
  find_bound, given_cap, clamp, cap_of,
}

-- The bounds of `Field(ge=1, le=50)`.
abbrev pub InBounds : ℕ → Type 0
InBounds n = (1 ≤ n) × (n ≤ 50)

abbrev pub GivenInBounds : Option ℕ → Type 0
GivenInBounds none = Unit
GivenInBounds (some n) = InBounds n

abbrev pub Capped : AgentSession → Type 0
Capped r = InBounds r.iteration_cap

pub update_row-All :
    (k : String) (x : AgentSession) (rs : List AgentSession)
    → Capped x
    → All Capped rs
    → All Capped (update_row session_key k (λ _. x) rs)
unfolding update_row
update_row-All k x [] p h = tt
update_row-All k x (r ∷ rs) p (q, h) = elim (Bool-cases (r.id == k)) [
  | inl e ↦ rw e (p, h)
  | inr e ↦ rw e (q, update_row-All k x rs p h)
]

abbrev pub CappedIf : Option AgentSession → Type 0
CappedIf none = Unit
CappedIf (some r) = Capped r

pub find_row-CappedIf :
    (k : String) (rs : List AgentSession) → All Capped rs → CappedIf (find_row session_key k rs)
unfolding find_row
find_row-CappedIf k [] h = tt
find_row-CappedIf k (x ∷ rs) (q, h) = elim (Bool-cases (x.id == k)) [
  | inl e ↦ rw e q
  | inr e ↦ rw e (find_row-CappedIf k rs h)
]

filter_keeps :
    (p : AgentSession → Bool) (rs : List AgentSession) → All Capped rs → All Capped (filter_by p rs)
unfolding filter_by
filter_keeps p [] h = tt
filter_keeps p (x ∷ xs) (h, hs) = elim (Bool-cases (p x)) [
  | inl e ↦ rw e (h, filter_keeps p xs hs)
  | inr e ↦ rw e (filter_keeps p xs hs)
]

first-CappedIf : (rs : List AgentSession) → All Capped rs → CappedIf (first rs)
first-CappedIf [] h = tt
first-CappedIf (r ∷ rs) (h, hs) = h

latest-CappedIf :
    (p : AgentSession → Bool) (rs : List AgentSession) → All Capped rs → CappedIf (latest p rs)
unfolding latest
latest-CappedIf p rs h =
    first-CappedIf (sort_by later (filter_by p rs))
      (sort_by-All Capped later (filter_by p rs) (filter_keeps p rs h))

clamp-InBounds : (n : Whole) → InBounds (clamp n)
clamp-InBounds (minus n) = (omega arith, omega arith)
clamp-InBounds (plus n) = ground arith

pub find_bound-CappedIf :
    (platform : String) (channel thread : Option String) (rs : List AgentSession)
    → All Capped rs
    → CappedIf (find_bound platform channel thread rs)
unfolding find_bound by_thread by_channel
find_bound-CappedIf platform channel thread rs h =
    if_none-CappedIf (by_thread platform thread rs) (by_channel platform channel rs)
      (elim (Bool-cases (text_or thread "" == "")) [
        | inl e ↦ rw (by_thread, e) tt
        | inr e ↦ rw (by_thread, e) (latest-CappedIf (on_thread platform (text_or thread "")) rs h)
      ])
      (elim (Bool-cases (text_or channel "" == "")) [
        | inl e ↦ rw (by_channel, e) tt
        | inr e ↦
            rw (by_channel, e) (latest-CappedIf (on_channel platform (text_or channel "")) rs h)
      ])
  where
    if_none-CappedIf :
        (a b : Option AgentSession) → CappedIf a → CappedIf b → CappedIf (if_none a b)
    if_none-CappedIf none b p q = q
    if_none-CappedIf (some r) b p q = p

abbrev pub InBoundsIf : Result ℕ → Type 0
InBoundsIf (ok n) = InBounds n
InBoundsIf (raise e) = Unit

pub cap_of-InBoundsIf : (r : Result Whole) → InBoundsIf (cap_of r)
cap_of-InBoundsIf (ok n) = clamp-InBounds n
cap_of-InBoundsIf (raise (Exception.type_error m)) = (omega arith, omega arith)
cap_of-InBoundsIf (raise (Exception.value_error m)) = (omega arith, omega arith)
cap_of-InBoundsIf (raise (Exception.key_error m)) = tt
cap_of-InBoundsIf (raise (Exception.attribute_error m)) = tt
cap_of-InBoundsIf (raise (Exception.index_error m)) = tt
cap_of-InBoundsIf (raise (Exception.overflow_error m)) = tt
cap_of-InBoundsIf (raise (Exception.runtime_error m)) = tt
cap_of-InBoundsIf (raise (Exception.os_error m)) = tt

pub given_cap-GivenInBounds : (c : Option ℕ) → GivenInBounds c → GivenInBounds (given_cap c)
given_cap-GivenInBounds none h = tt
given_cap-GivenInBounds (some n) h = elim (Bool-cases (leb 1 n)) [
  | inl e ↦ rw e h
  | inr e ↦ rw e tt
]

pub chosen-InBounds :
    (c : Option ℕ) (n : ℕ)
    → GivenInBounds c
    → InBounds n
    → InBounds (elim c [ none ↦ n | some m ↦ m ])
chosen-InBounds none n g h = h
chosen-InBounds (some m) n g h = g

-- ===== src/Proposals/Listing.antt =====
-- What `open_pending_action_proposals` lists.
use life_os_vnex.Prelude.{
  ℕ, zero, suc, ◌≤◌, String, Bool, true, ◌≡◌, refl, Option, List, [], ◌∷◌, ◌==◌, ltb, length,
  length-take, take, All, arith, Bool-cases, inl, inr,
}
use life_os_vnex.Prelude.Env.{Env}
use life_os_vnex.State.{Store, PendingActionProposal, ok, utc_now}
use life_os_vnex.Proposals.{filter_by, insert_by, sort_by, is_open_at, open_pending, text_or}

module _ {A : Type 0} (P : A → Type 0) where
  take-All : (n : ℕ) (xs : List A) → All P xs → All P (take n xs)
  take-All zero xs h = tt
  take-All (suc n) [] h = tt
  take-All (suc n) (x ∷ xs) (p, h) = (p, take-All n xs h)

  insert_by-All :
      (before : A → A → Bool) (a : A) (xs : List A) → P a → All P xs → All P (insert_by before a xs)
  unfolding insert_by
  insert_by-All before a [] p h = (p, tt)
  insert_by-All before a (x ∷ xs) p (q, h) = elim (Bool-cases (before x a)) [
    | inl e ↦ rw e (q, insert_by-All before a xs p h)
    | inr e ↦ rw e (p, (q, h))
  ]

  pub sort_by-All : (before : A → A → Bool) (xs : List A) → All P xs → All P (sort_by before xs)
  unfolding sort_by
  sort_by-All before [] h = tt
  sort_by-All before (x ∷ xs) (p, h) =
      insert_by-All before x (sort_by before xs) p (sort_by-All before xs h)

filter_by-All : {A : Type 0} (p : A → Bool) (xs : List A) → All (λ a. p a ≡ true) (filter_by p xs)
unfolding filter_by
filter_by-All p [] = tt
filter_by-All p (x ∷ xs) = elim (Bool-cases (p x)) [
  | inl e ↦ rw e (e, filter_by-All p xs)
  | inr e ↦ rw e (filter_by-All p xs)
]

-- The proposals that are listed for a session are of that session, pending or revised, and not
-- expired at the time of the query, and there are at most as many as the limit.
pub open_pending-All :
    (env : Env) (session : Option String) (limit : ℕ) (s : Store)
    → (rows : List PendingActionProposal) × ((open_pending env session limit s).0 ≡ ok rows)
      × All (λ r. is_open_at env (text_or session "") (env.clock s.reads) r ≡ true) rows
      × (length rows ≤ limit)
unfolding open_pending utc_now
open_pending-All env session limit s = elim (Bool-cases (text_or session "" == "")) [
  | inl e ↦ ([], rw (e, open_pending) refl, tt, omega arith)
  | inr e ↦
      let rows : List PendingActionProposal = take limit (
        sort_by (λ a b. ltb a.created_at b.created_at)
          (filter_by (is_open_at env (text_or session "") (env.clock s.reads)) s.proposals)) in
      let kept =
        filter_by-All (is_open_at env (text_or session "") (env.clock s.reads)) s.proposals in
      (
        rows,
        rw (e, open_pending) refl,
        take-All _ limit _ (sort_by-All _ _ _ kept),
        length-take limit _,
      )
]

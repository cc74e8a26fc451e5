-- ===== src/State/Laws.antt =====
-- Reading and changing a row of a table.
use life_os_vnex.Prelude.{
  String, ◌≡◌, refl, none, some, List, [], ◌∷◌, ◌++◌, ◌==◌, eq_iff, if◌then◌else◌, arith,
}
use life_os_vnex.State.{Store, AgentRun, AgentSession, find_row, update_row}

module _ {A : Type 0} (key : A → String) where
  -- Under an id that no row has yet, an update reaches the row that is added last.
  pub update_row-append :
      (k : String) (f : A → A) (rs : List A) (r : A)
      → find_row key k rs ≡ none
      → key r ≡ k
      → update_row key k f (rs ++ r ∷ []) ≡ rs ++ f r ∷ []
  unfolding find_row update_row
  update_row-append k f [] r h e = ground (arith, eq_iff (key r) k)
  update_row-append k f (x ∷ rs) r h e =
      ground (arith, eq_iff (key x) k, update_row-append k f rs r)

  -- The row that is found after an update that keeps ids.
  pub find_row-update :
      (j k : String) (f : A → A) (rs : List A)
      → ((r : A) → key r ≡ k → key (f r) ≡ k)
      → find_row key j (update_row key k f rs) ≡ (
          if j == k
          then elim (find_row key k rs) [ none ↦ none | some r ↦ some (f r) ]
          else find_row key j rs)
  unfolding find_row update_row
  find_row-update j k f [] keep = ground arith
  find_row-update j k f (x ∷ rs) keep = ground (
    arith,
    keep x,
    eq_iff (key x) k,
    eq_iff (key x) j,
    eq_iff (key (f x)) j,
    eq_iff j k,
    find_row-update j k f rs keep,
  )

  -- Two updates of one row are one, when the first keeps ids.
  pub update_row-twice :
      (k : String) (f g : A → A) (rs : List A)
      → ((r : A) → key r ≡ k → key (f r) ≡ k)
      → update_row key k g (update_row key k f rs) ≡ update_row key k (λ r. g (f r)) rs
  unfolding update_row
  update_row-twice k f g [] keep = refl
  update_row-twice k f g (x ∷ rs) keep =
      ground (arith, keep x, eq_iff (key x) k, eq_iff (key (f x)) k, update_row-twice k f g rs keep)

  -- The row that is found has the id that is asked for.
  pub find_row-key : (k : String) (rs : List A) (r : A) → find_row key k rs ≡ some r → key r ≡ k
  unfolding find_row
  find_row-key k [] r h = cc
  find_row-key k (x ∷ rs) r h = ground (arith, eq_iff (key x) k, find_row-key k rs r)

  -- The row that is found, put in its place again, changes nothing when no other row has its id.
  pub update_row-found :
      (k : String) (rs : List A) (r : A)
      → find_row key k rs ≡ some r
      → update_row key k (λ _. r) rs ≡ rs
  unfolding find_row update_row
  update_row-found k [] r h = cc
  update_row-found k (x ∷ rs) r h = ground (arith, update_row-found k rs r)

  -- The row that is added last is found under its id when no row had it.
  pub find_row-append :
      (k : String) (rs : List A) (r : A)
      → find_row key k rs ≡ none
      → key r ≡ k
      → find_row key k (rs ++ r ∷ []) ≡ some r
  unfolding find_row
  find_row-append k [] r h e = ground (arith, eq_iff (key r) k)
  find_row-append k (x ∷ xs) r h e = ground (arith, eq_iff (key x) k, find_row-append k xs r)

-- The runs and the sessions: what a turn of a conversation leaves alone.
abbrev pub held : Store → List AgentRun × List AgentSession
held s = (s.runs, s.sessions)

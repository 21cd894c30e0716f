-- ===== src/Keno/Autoplay/Rows.antt =====
-- The sessions that a round reads are the active ones of the table, each once (packages/core/keno_autoplay.py).
use igame.Common.{
  ℕ, ◌+◌, ◌≤◌, ◌<◌, ◌≡◌, refl, ◌∙◌, true, false, some, List, [], ◌∷◌, ◌++◌, ◌==◌, arith, length,
  Bool-cases, inl, inr,
}
use igame.Keno.Autoplay.{is_active, AutoplaySession, update_session, find_session, active_sessions}
use igame.Keno.Autoplay.Sessions.{KeepsId, find_session-update_other}

-- The ids are the numbers from `n` on.
abbrev pub InOrder : ℕ → List AutoplaySession → Type 0
InOrder n [] = Unit
InOrder n (s ∷ rest) = (s.id ≡ n) × InOrder (n + 1) rest

pub InOrder-append :
    (n : ℕ) (sessions : List AutoplaySession) (s : AutoplaySession)
    → InOrder n sessions
    → s.id ≡ n + length sessions
    → InOrder n (sessions ++ s ∷ [])
InOrder-append n [] s h e = (omega (arith, e), tt)
InOrder-append n (x ∷ rest) s (h, more) e =
    (h, InOrder-append (n + 1) rest s more (omega (arith, e)))

pub InOrder-update :
    (f : AutoplaySession → AutoplaySession) (id n : ℕ) (sessions : List AutoplaySession)
    → KeepsId f
    → InOrder n sessions
    → InOrder n (update_session f id sessions)
unfolding update_session
InOrder-update f id n [] keeps h = tt
InOrder-update f id n (x ∷ rest) keeps (h, more) = elim (Bool-cases (x.id == id)) [
  | inl own ↦ (rw own (keeps x ∙ h), InOrder-update f id (n + 1) rest keeps more)
  | inr other ↦ (rw other h, InOrder-update f id (n + 1) rest keeps more)
]

abbrev Above : ℕ → List AutoplaySession → Type 0
Above n [] = Unit
Above n (r ∷ rows) = (n < r.id) × Above n rows

-- The rows as they were read are still those of the table, active and each once.
abbrev pub Current : List AutoplaySession → List AutoplaySession → Type 0
Current [] sessions = Unit
Current (r ∷ rows) sessions =
    (find_session r.id sessions ≡ some r)
    × (is_active r.status ≡ true)
    × Above r.id rows
    × Current rows sessions

Above-below : (m n : ℕ) (rows : List AutoplaySession) → m ≤ n → Above n rows → Above m rows
Above-below m n [] l h = tt
Above-below m n (r ∷ rows) l (h, more) = (omega (arith, l, h), Above-below m n rows l more)

active_sessions-Above :
    (m n : ℕ) (sessions : List AutoplaySession)
    → m < n
    → InOrder n sessions
    → Above m (active_sessions sessions)
unfolding active_sessions
active_sessions-Above m n [] l h = tt
active_sessions-Above m n (x ∷ rest) l (h, more) = elim (Bool-cases (is_active x.status)) [
  | inl a ↦ rw a (omega (arith, h, l), active_sessions-Above m (n + 1) rest (omega (arith, l)) more)
  | inr a ↦ rw a (active_sessions-Above m (n + 1) rest (omega (arith, l)) more)
]

Current-cons :
    (x : AutoplaySession) (rows sessions : List AutoplaySession)
    → Above x.id rows
    → Current rows sessions
    → Current rows (x ∷ sessions)
unfolding find_session
Current-cons x [] sessions above h = tt
Current-cons x (r ∷ rows) sessions (l, above) (found, a, later, more) =
    let other : x.id == r.id ≡ false = ground (arith, l) in
    (rw other found, a, later, Current-cons x rows sessions above more)

pub active_sessions-Current :
    (n : ℕ) (sessions : List AutoplaySession)
    → InOrder n sessions
    → Current (active_sessions sessions) sessions
unfolding active_sessions find_session
active_sessions-Current n [] h = tt
active_sessions-Current n (x ∷ rest) (h, more) =
    let later : Above x.id (active_sessions rest) =
      active_sessions-Above x.id (n + 1) rest (omega (arith, h)) more in
    let tail =
      Current-cons x (active_sessions rest) rest later
        (active_sessions-Current (n + 1) rest more) in
    elim (Bool-cases (is_active x.status)) [
      | inl a ↦ let own : x.id == x.id ≡ true = ground arith in rw a (rw own refl, a, later, tail)
      | inr a ↦ rw a tail
    ]

pub Current-update :
    (f : AutoplaySession → AutoplaySession) (id : ℕ) (rows sessions : List AutoplaySession)
    → KeepsId f
    → Above id rows
    → Current rows sessions
    → Current rows (update_session f id sessions)
Current-update f id [] sessions keeps above h = tt
Current-update f id (r ∷ rows) sessions keeps (l, above) (found, a, later, more) =
    let other : id == r.id ≡ false = ground (arith, l) in
    (
      find_session-update_other f id r.id sessions keeps other ∙ found,
      a,
      later,
      Current-update f id rows sessions keeps above more,
    )

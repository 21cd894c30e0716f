-- ===== src/Keno/Autoplay/Sessions.antt =====
-- Which sessions place tickets (packages/core/keno_autoplay.py).
use igame.Common.{
  ℕ, ◌+◌, ◌≡◌, refl, ap, sym, ◌∙◌, Bool, true, false, Option, none, some, String, List, [], ◌∷◌,
  ◌==◌, arith, if◌then◌else◌, leb, ltb, Bool-cases, inl, inr, ◌⊎◌,
}
use mathlib.Core.Path.{subst}
use igame.Keno.Autoplay.{
  SessionStatus, exhausted, is_active, AutoplaySession, update_session, find_session, set_stopped,
  count_round, is_exhausted,
}

-- An active session has rounds left, and a session that has ended has placed no more than it asked for.
abbrev pub within : SessionStatus → ℕ → Option ℕ → Bool
within status n none = true
within status n (some total) = if is_active status then ltb n total else leb n total

abbrev pub is_within : AutoplaySession → Bool
is_within s = within s.status s.rounds_placed s.rounds_total

abbrev pub AllWithin : List AutoplaySession → Type 0
AllWithin sessions =
    (k : ℕ) (s : AutoplaySession) → find_session k sessions ≡ some s → is_within s ≡ true

abbrev pub KeepsId : (AutoplaySession → AutoplaySession) → Type 0
KeepsId f = (s : AutoplaySession) → (f s).id ≡ s.id

abbrev pub apply :
    (AutoplaySession → AutoplaySession) → Option AutoplaySession → Option AutoplaySession
apply f none = none
apply f (some s) = some (f s)

find_session-id :
    (k : ℕ) (sessions : List AutoplaySession) (s : AutoplaySession)
    → find_session k sessions ≡ some s
    → s.id ≡ k
unfolding find_session
find_session-id k [] s h = cc h
find_session-id k (x ∷ rest) s h = elim (Bool-cases (x.id == k)) [
  | inl own ↦
      let same : x ≡ s = cc (rw own at h) in
      ap (λ (y : AutoplaySession). y.id) (sym same) ∙ ground (arith, own)
  | inr other ↦ find_session-id k rest s (rw other at h)
]

pub find_session-update :
    (f : AutoplaySession → AutoplaySession) (id : ℕ) (sessions : List AutoplaySession)
    → KeepsId f
    → find_session id (update_session f id sessions) ≡ apply f (find_session id sessions)
unfolding find_session update_session
find_session-update f id [] keeps = refl
find_session-update f id (x ∷ rest) keeps = elim (Bool-cases (x.id == id)) [
  | inl own ↦ rw (own, keeps x, own) refl
  | inr other ↦ rw (other, other) (find_session-update f id rest keeps)
]

pub find_session-update_other :
    (f : AutoplaySession → AutoplaySession) (id k : ℕ) (sessions : List AutoplaySession)
    → KeepsId f
    → id == k ≡ false
    → find_session k (update_session f id sessions) ≡ find_session k sessions
unfolding find_session update_session
find_session-update_other f id k [] keeps h = refl
find_session-update_other f id k (x ∷ rest) keeps h = elim (Bool-cases (x.id == id)) [
  | inl own ↦
      let not_k : x.id == k ≡ false = ground (arith, own, h) in
      rw (own, keeps x, not_k) (find_session-update_other f id k rest keeps h)
  | inr other ↦ elim (Bool-cases (x.id == k)) [
    | inl mine ↦ rw (other, mine) refl
    | inr not_k ↦ rw (other, not_k) (find_session-update_other f id k rest keeps h)
  ]
]

apply-eq-some :
    (f : AutoplaySession → AutoplaySession) (found : Option AutoplaySession) {s : AutoplaySession}
    → apply f found ≡ some s
    → (old : AutoplaySession) × (found ≡ some old) × (f old ≡ s)
apply-eq-some f none h = cc h
apply-eq-some f (some old) h = (old, refl, cc h)

-- What is found after an update.
update_session-cases :
    (f : AutoplaySession → AutoplaySession) (id k : ℕ) (sessions : List AutoplaySession)
    (s : AutoplaySession)
    → KeepsId f
    → find_session k (update_session f id sessions) ≡ some s
    → ((id ≡ k) × (old : AutoplaySession) × (find_session id sessions ≡ some old) × (f old ≡ s))
      ⊎ (find_session k sessions ≡ some s)
update_session-cases f id k sessions s keeps h = elim (Bool-cases (id == k)) [
  | inl own ↦
      let same : id ≡ k = ground (arith, own) in
      let at_id =
        subst (λ (x : ℕ). find_session x (update_session f id sessions) ≡ some s) (sym same) h in
      let (old, found, made) =
        apply-eq-some f (find_session id sessions)
          (sym (find_session-update f id sessions keeps) ∙ at_id) in
      inl (same, old, found, made)
  | inr other ↦ inr (sym (find_session-update_other f id k sessions keeps other) ∙ h)
]

pub AllWithin-update :
    (f : AutoplaySession → AutoplaySession) (id : ℕ) (sessions : List AutoplaySession)
    → KeepsId f
    → ((s : AutoplaySession) → find_session id sessions ≡ some s → is_within (f s) ≡ true)
    → AllWithin sessions
    → AllWithin (update_session f id sessions)
AllWithin-update f id sessions keeps new all k s h =
    elim (update_session-cases f id k sessions s keeps h) [
      | inl (same, old, found, made) ↦ sym (ap is_within made) ∙ new old found
      | inr before ↦ all k s before
    ]

pub set_stopped-KeepsId :
    (status : SessionStatus) (reason : String) → KeepsId (set_stopped status reason)
set_stopped-KeepsId status reason s = elim (Bool-cases (is_active s.status)) [
  | inl a ↦ rw a refl
  | inr a ↦ rw a refl
]

pub set_stopped-within :
    (status : SessionStatus) (reason : String) (s : AutoplaySession)
    → is_active status ≡ false
    → is_within s ≡ true
    → is_within (set_stopped status reason s) ≡ true
set_stopped-within status reason s over h = elim (Bool-cases (is_active s.status)) [
  | inl a ↦ rw a (looser status s.status s.rounds_placed s.rounds_total over a h)
  | inr a ↦ rw a h
]
  where
    looser :
        (status old : SessionStatus) (n : ℕ) (total : Option ℕ)
        → is_active status ≡ false
        → is_active old ≡ true
        → within old n total ≡ true
        → within status n total ≡ true
    looser status old n none over a h = refl
    looser status old n (some total) over a h = rw over (ground (arith, rw a at h))

pub count_round-within :
    (round_id : ℕ) (s : AutoplaySession)
    → is_active s.status ≡ true
    → is_exhausted s ≡ false
    → is_within (count_round round_id s) ≡ true
count_round-within round_id s a left = go s.rounds_total left
  where
    go :
        (total : Option ℕ)
        → (elim total [ none ↦ false | some n ↦ leb n (s.rounds_placed + 1) ]) ≡ false
        → within s.status (s.rounds_placed + 1) total ≡ true
    go none h = refl
    go (some n) h = rw a (ground (arith, h))

pub exhausted-within :
    (round_id : ℕ) (s : AutoplaySession)
    → is_active s.status ≡ true
    → is_within s ≡ true
    → is_within (set_stopped exhausted "rounds_exhausted" (count_round round_id s)) ≡ true
exhausted-within round_id s a h = rw a (go s.rounds_total h)
  where
    go :
        (total : Option ℕ)
        → within s.status s.rounds_placed total ≡ true
        → within exhausted (s.rounds_placed + 1) total ≡ true
    go none h = refl
    go (some n) h = ground (arith, rw a at h)

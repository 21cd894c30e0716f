-- ===== src/Keno/Autoplay/Calls.antt =====
-- Sequences of calls on the table of sessions (packages/core/keno_autoplay.py).
use mathlib.Core.Path.{subst}
use igame.Common.{
  ℕ, ◌≡◌, refl, ap, sym, ◌∙◌, Bool, true, false, Option, some, List, [], ◌∷◌, ◌==◌, arith,
  Bool-cases, inl, inr,
}
use Prim.Native.String.{◌++◌ as append}
use igame.Common.Int.{ℤ}
use igame.Keno.Autoplay.{
  stopped, exhausted, is_active, AutoplaySession, update_session, find_session, set_stopped,
  stop_internal, TicketAnswer, placed, error, rejected, count_round, is_exhausted,
  place_for_session, place_loop, add_net, check_thresholds, is_won, is_lost,
}
use igame.Keno.Autoplay.Sessions.{
  is_within, AllWithin, KeepsId, AllWithin-update, set_stopped-KeepsId, set_stopped-within,
  count_round-within, exhausted-within,
}
use igame.Keno.Autoplay.Rows.{InOrder, InOrder-update, Current, Current-update}

pub record SessionsAreWf (sessions : List AutoplaySession) : Type 0 where
  pub all_within : AllWithin sessions
  pub in_order : InOrder 1 sessions

update-update :
    (f g : AutoplaySession → AutoplaySession) (id : ℕ) (sessions : List AutoplaySession)
    → KeepsId f
    → update_session g id (update_session f id sessions) ≡ update_session (λ s. g (f s)) id sessions
unfolding update_session
update-update f g id [] keeps = refl
update-update f g id (x ∷ rest) keeps = elim (Bool-cases (x.id == id)) [
  | inl own ↦
      let kept : (f x).id == id ≡ true = ground (arith, keeps x, own) in
      rw (own, kept)
        (ap (λ (r : List AutoplaySession). g (f x) ∷ r) (update-update f g id rest keeps))
  | inr other ↦
      rw (other, other) (ap (λ (r : List AutoplaySession). x ∷ r) (update-update f g id rest keeps))
]

-- What an update leaves, when it keeps ids and leaves its session within its total.
pub update-SessionsAreWf :
    (f : AutoplaySession → AutoplaySession) (id : ℕ) {sessions : List AutoplaySession}
    → KeepsId f
    → ((s : AutoplaySession) → find_session id sessions ≡ some s → is_within (f s) ≡ true)
    → SessionsAreWf sessions
    → SessionsAreWf (update_session f id sessions)
update-SessionsAreWf f id {sessions} keeps new w = record {
  all_within = AllWithin-update f id sessions keeps new w.all_within;
  in_order = InOrder-update f id 1 sessions keeps w.in_order;
}

abbrev count_row : Bool → ℕ → AutoplaySession → AutoplaySession
count_row true round_id s = set_stopped exhausted "rounds_exhausted" (count_round round_id s)
count_row false round_id s = count_round round_id s

-- What a ticket does to its session, which was read as `row`.
abbrev pub ticket_row : TicketAnswer → AutoplaySession → ℕ → AutoplaySession → AutoplaySession
ticket_row error row round_id = set_stopped stopped "placement_error"
ticket_row (rejected code) row round_id = set_stopped stopped (append "ticket_rejected:" code)
ticket_row placed row round_id = count_row (is_exhausted row) round_id

pub ticket_row-KeepsId :
    (answer : TicketAnswer) (row : AutoplaySession) (round_id : ℕ)
    → KeepsId (ticket_row answer row round_id)
ticket_row-KeepsId error row round_id s = set_stopped-KeepsId stopped "placement_error" s
ticket_row-KeepsId (rejected code) row round_id s =
    set_stopped-KeepsId stopped (append "ticket_rejected:" code) s
ticket_row-KeepsId placed row round_id s = elim (Bool-cases (is_exhausted row)) [
  | inl done ↦ rw done (set_stopped-KeepsId exhausted "rounds_exhausted" (count_round round_id s))
  | inr left ↦ rw left refl
]

pub place_for_session-update :
    (answer : TicketAnswer) (row : AutoplaySession) (round_id : ℕ) (sessions : List AutoplaySession)
    → place_for_session answer row round_id sessions
      ≡ update_session (ticket_row answer row round_id) row.id sessions
unfolding place_for_session stop_internal
place_for_session-update error row round_id sessions = refl
place_for_session-update (rejected code) row round_id sessions = refl
place_for_session-update placed row round_id sessions = elim (Bool-cases (is_exhausted row)) [
  | inl done ↦ rw done (
      update-update (count_round round_id) (set_stopped exhausted "rounds_exhausted") row.id
        sessions (λ s. refl))
  | inr left ↦ rw left refl
]

ticket_row-within :
    (answer : TicketAnswer) (row : AutoplaySession) (round_id : ℕ)
    → is_active row.status ≡ true
    → is_within row ≡ true
    → is_within (ticket_row answer row round_id row) ≡ true
ticket_row-within error row round_id a h = set_stopped-within stopped "placement_error" row refl h
ticket_row-within (rejected code) row round_id a h =
    set_stopped-within stopped (append "ticket_rejected:" code) row refl h
ticket_row-within placed row round_id a h = elim (Bool-cases (is_exhausted row)) [
  | inl done ↦ rw done (exhausted-within round_id row a h)
  | inr left ↦ rw left (count_round-within round_id row a left)
]

pub some-injective :
    {a b : AutoplaySession} → ◌≡◌ {A = Option AutoplaySession} (some a) (some b) → a ≡ b
some-injective h = cc h

pub place_loop-SessionsAreWf :
    (answer : AutoplaySession → TicketAnswer) (rows : List AutoplaySession) (round_id : ℕ)
    (sessions : List AutoplaySession)
    → Current rows sessions
    → SessionsAreWf sessions
    → SessionsAreWf (place_loop answer rows round_id sessions)
unfolding place_loop
place_loop-SessionsAreWf answer [] round_id sessions now w = w
place_loop-SessionsAreWf answer (r ∷ rows) round_id sessions (found, a, later, more) w =
    let f = ticket_row (answer r) r round_id in
    let keeps = ticket_row-KeepsId (answer r) r round_id in
    let new = λ (s : AutoplaySession) (h : find_session r.id sessions ≡ some s).
      subst (λ (x : AutoplaySession). is_within (f x) ≡ true) (some-injective (sym found ∙ h))
        (ticket_row-within (answer r) r round_id a (w.all_within r.id r found)) in
    rw (place_for_session-update (answer r) r round_id sessions) (
      place_loop-SessionsAreWf answer rows round_id (update_session f r.id sessions)
        (Current-update f r.id rows sessions keeps later more)
        (update-SessionsAreWf f r.id keeps new w))

pub check_thresholds-KeepsId : KeepsId check_thresholds
check_thresholds-KeepsId s = elim (Bool-cases (is_won s)) [
  | inl won ↦ rw won (set_stopped-KeepsId stopped "stop_on_win" s)
  | inr not_won ↦ elim (Bool-cases (is_lost s)) [
    | inl lost ↦ rw (not_won, lost) (set_stopped-KeepsId stopped "stop_on_loss" s)
    | inr kept ↦ rw (not_won, kept) refl
  ]
]

pub check_thresholds-within :
    (s : AutoplaySession) → is_within s ≡ true → is_within (check_thresholds s) ≡ true
check_thresholds-within s h = elim (Bool-cases (is_won s)) [
  | inl won ↦ rw won (set_stopped-within stopped "stop_on_win" s refl h)
  | inr not_won ↦ elim (Bool-cases (is_lost s)) [
    | inl lost ↦ rw (not_won, lost) (set_stopped-within stopped "stop_on_loss" s refl h)
    | inr kept ↦ rw (not_won, kept) h
  ]
]

pub add_net-KeepsId : (delta : ℤ) → KeepsId (add_net delta)
add_net-KeepsId delta s = elim (Bool-cases (is_active s.status)) [
  | inl a ↦ rw a refl
  | inr a ↦ rw a refl
]

pub add_net-within :
    (delta : ℤ) (s : AutoplaySession) → is_within s ≡ true → is_within (add_net delta s) ≡ true
add_net-within delta s h = elim (Bool-cases (is_active s.status)) [
  | inl a ↦ rw a h
  | inr a ↦ rw a h
]

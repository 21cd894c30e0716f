-- ===== src/Keno/Autoplay/Ended.antt =====
-- A session that has ended stays as it is (packages/core/keno_autoplay.py).
use mathlib.Core.Path.{subst}
use igame.Common.{
  ℕ, ◌+◌, ◌≡◌, refl, ap, sym, ◌∙◌, true, false, Option, none, some, List, [], ◌∷◌, ◌==◌, arith,
  length, Bool-cases, inl, inr,
}
use igame.Common.Int.{ℤ, ◌+ℤ◌, ◌-ℤ◌}
use igame.Common.Result.{Result, ok, err}
use igame.Keno.Autoplay.{
  record_settlement_safely, stopped, is_active, AutoplaySession, AutoplayError, new_session,
  start_session, update_session, find_session, set_stopped, stop_internal, active_session,
  active_sessions, manual_stop, stop_session, TicketAnswer, place_loop, place_for_active_sessions,
  add_net, check_thresholds, is_won, is_lost, record_settlement,
}
use igame.Keno.Autoplay.Sessions.{
  KeepsId, apply, find_session-update, find_session-update_other, set_stopped-KeepsId,
}
use igame.Keno.Autoplay.Rows.{Current, active_sessions-Current, Current-update}
use igame.Keno.Autoplay.Calls.{
  SessionsAreWf, ticket_row, ticket_row-KeepsId, place_for_session-update, some-injective,
}
use igame.Keno.Autoplay.Runs.{
  Call, start, stop, open_round, settle, table_after, run_call, run_calls, start_session-eq-ok,
  find_session-append_some, settled_row-KeepsId, run_call-SessionsAreWf,
}

-- An update of another session, or one that leaves this session alone.
update_session-keeps :
    (f : AutoplaySession → AutoplaySession) (id k : ℕ) (sessions : List AutoplaySession)
    (s : AutoplaySession)
    → KeepsId f
    → (id ≡ k → f s ≡ s)
    → find_session k sessions ≡ some s
    → find_session k (update_session f id sessions) ≡ some s
update_session-keeps f id k sessions s keeps alone h = elim (Bool-cases (id == k)) [
  | inl own ↦
      let same : id ≡ k = ground (arith, own) in
      subst (λ (x : ℕ). find_session k (update_session f x sessions) ≡ some s) (sym same)
        (find_session-update f k sessions keeps
          ∙ ap (apply f) h
          ∙ ap (λ (x : AutoplaySession). some x) (alone same))
  | inr other ↦ find_session-update_other f id k sessions keeps other ∙ h
]

module _ (k : ℕ) (s : AutoplaySession) (over : is_active s.status ≡ false) where
  place_loop-keeps :
      (answer : AutoplaySession → TicketAnswer) (rows : List AutoplaySession) (round_id : ℕ)
      (sessions : List AutoplaySession)
      → Current rows sessions
      → find_session k sessions ≡ some s
      → find_session k (place_loop answer rows round_id sessions) ≡ some s
  unfolding place_loop
  place_loop-keeps answer [] round_id sessions now h = h
  place_loop-keeps answer (r ∷ rows) round_id sessions (found, a, later, more) h =
      let f = ticket_row (answer r) r round_id in
      let keeps = ticket_row-KeepsId (answer r) r round_id in
      let alone : r.id ≡ k → f s ≡ s = λ same.
        let row_is : r ≡ s =
          some-injective (sym found ∙ ap (λ (x : ℕ). find_session x sessions) same ∙ h) in
        let contradiction : true ≡ false =
          sym a ∙ ap (λ (x : AutoplaySession). is_active x.status) row_is ∙ over in
        cc contradiction in
      rw (place_for_session-update (answer r) r round_id sessions) (
        place_loop-keeps answer rows round_id (update_session f r.id sessions)
          (Current-update f r.id rows sessions keeps later more)
          (update_session-keeps f r.id k sessions s keeps alone h))

  settled_row-keeps : (delta : ℤ) → check_thresholds (add_net delta s) ≡ s
  settled_row-keeps delta = elim (Bool-cases (is_won s)) [
    | inl won ↦ rw (over, won, over) refl
    | inr not_won ↦ elim (Bool-cases (is_lost s)) [
      | inl lost ↦ rw (over, not_won, lost, over) refl
      | inr kept ↦ rw (over, not_won, kept) refl
    ]
  ]

  run_call-keeps :
      (c : Call) (sessions : List AutoplaySession)
      → SessionsAreWf sessions
      → find_session k sessions ≡ some s
      → find_session k (run_call c sessions) ≡ some s
  unfolding run_call place_for_active_sessions record_settlement_safely record_settlement
      stop_session stop_internal
  run_call-keeps (start block ask) sessions w h = go (start_session block ask sessions) refl
    where
      go :
          (answer : Result AutoplayError (AutoplaySession × List AutoplaySession))
          → start_session block ask sessions ≡ answer
          → find_session k (table_after sessions answer) ≡ some s
      go (ok (session, later)) e =
          let (picks, config, made) = start_session-eq-ok block ask sessions e in
          subst (λ (x : List AutoplaySession). find_session k x ≡ some s) (sym made)
            (find_session-append_some k sessions (new_session ask picks (length sessions + 1)) h)
      go (err e) _ = h
  run_call-keeps (stop user_id) sessions w h = go (active_session user_id sessions)
    where
      go : (found : Option AutoplaySession) → find_session k (manual_stop found sessions).1 ≡ some s
      go none = h
      go (some x) =
          update_session-keeps (set_stopped stopped "manual") x.id k sessions s
            (set_stopped-KeepsId stopped "manual") (λ _. rw over refl) h
  run_call-keeps (open_round answer round_id) sessions w h =
      place_loop-keeps answer (active_sessions sessions) round_id sessions
        (active_sessions-Current 1 sessions w.in_order) h
  run_call-keeps (settle true none stake payout jackpot_payout) sessions w h = h
  run_call-keeps (settle true (some id) stake payout jackpot_payout) sessions w h =
      update_session-keeps (set_stopped stopped "settlement_error") id k sessions s
        (set_stopped-KeepsId stopped "settlement_error") (λ _. rw over refl) h
  run_call-keeps (settle false none stake payout jackpot_payout) sessions w h = h
  run_call-keeps (settle false (some id) stake payout jackpot_payout) sessions w h =
      let delta = (payout +ℤ jackpot_payout) -ℤ stake in
      update_session-keeps (λ x. check_thresholds (add_net delta x)) id k sessions s
        (settled_row-KeepsId delta) (λ _. settled_row-keeps delta) h

-- In a well-formed table, no sequence of starts, stops, rounds and settlements changes a session that has ended: it
-- places no ticket again, and its status and its reason stay.
pub run_calls-keeps :
    (calls : List Call) (sessions : List AutoplaySession) (k : ℕ) (s : AutoplaySession)
    → SessionsAreWf sessions
    → is_active s.status ≡ false
    → find_session k sessions ≡ some s
    → find_session k (run_calls calls sessions) ≡ some s
unfolding run_calls
run_calls-keeps [] sessions k s w over h = h
run_calls-keeps (c ∷ rest) sessions k s w over h =
    run_calls-keeps rest (run_call c sessions) k s (run_call-SessionsAreWf c sessions w) over
      (run_call-keeps k s over c sessions w h)

-- ===== src/Keno/Autoplay/Runs.antt =====
-- What any sequence of calls leaves of a session (packages/core/keno_autoplay.py).
use mathlib.Core.Path.{subst}
use igame.Common.{
  String, ℕ, ◌+◌, ◌≡◌, refl, ap, sym, ◌∙◌, Bool, true, false, Option, none, some, List, [], ◌∷◌,
  ◌++◌, ◌==◌, arith, length, Bool-cases, inl, inr, ◌⊎◌,
}
use igame.Common.Int.{ℤ, ◌+ℤ◌, ◌-ℤ◌}
use igame.Common.Result.{Result, ok, err, raise_if, >>=-eq-ok, >>-eq-ok, ok-injective}
use igame.Keno.{validate_picks, min_picks, max_picks}
use igame.ResponsibleGaming.{PlayBlock}
use igame.Keno.Autoplay.{
  update_session, active, stopped, AutoplaySession, Start, AutoplayError, new_session, raise_keno,
  no_session, blocked_by_responsible_gaming, bad_total, check_config, start_session, find_session,
  set_stopped, stop_internal, active_session, active_sessions, manual_stop, stop_session,
  TicketAnswer, place_for_active_sessions, add_net, check_thresholds, record_settlement,
  record_settlement_safely,
}
use igame.Keno.Autoplay.Sessions.{
  within, is_within, KeepsId, set_stopped-KeepsId, set_stopped-within,
}
use igame.Keno.Autoplay.Rows.{InOrder-append, active_sessions-Current}
use igame.Keno.Autoplay.Calls.{
  SessionsAreWf, update-SessionsAreWf, place_loop-SessionsAreWf, check_thresholds-KeepsId,
  check_thresholds-within, add_net-KeepsId, add_net-within, some-injective,
}

pub data Call : Type 0 where
  start : PlayBlock → Start → Call
  stop : ℕ → Call
  open_round : (AutoplaySession → TicketAnswer) → ℕ → Call
  settle : Bool → Option ℕ → ℤ → ℤ → ℤ → Call

-- A call that raises changes nothing.
abbrev pub table_after :
    List AutoplaySession
    → Result AutoplayError (AutoplaySession × List AutoplaySession)
    → List AutoplaySession
table_after sessions (ok (session, later)) = later
table_after sessions (err e) = sessions

unfoldable pub run_call : Call → List AutoplaySession → List AutoplaySession
run_call (start block s) sessions = table_after sessions (start_session block s sessions)
run_call (stop user_id) sessions = (stop_session user_id sessions).1
run_call (open_round answer round_id) sessions = place_for_active_sessions answer round_id sessions
run_call (settle raised id stake payout jackpot_payout) sessions =
    record_settlement_safely raised id stake payout jackpot_payout sessions

unfoldable pub run_calls : List Call → List AutoplaySession → List AutoplaySession
run_calls [] sessions = sessions
run_calls (c ∷ rest) sessions = run_calls rest (run_call c sessions)

not_raised : {E : Type 0} (b : Bool) (e : E) → raise_if b e ≡ ok tt → b ≡ false
not_raised true e h = cc h
not_raised false e h = refl

check_config-total : (s : Start) → check_config s ≡ ok tt → bad_total s.rounds_total ≡ false
unfolding check_config
check_config-total s h =
    let (first, more) = >>-eq-ok _ _ h in
    let (total, rest) = >>-eq-ok _ _ more in not_raised (bad_total s.rounds_total) _ total

-- What a start that went through did.
pub start_session-eq-ok :
    (block : PlayBlock) (s : Start) (sessions : List AutoplaySession) {session : AutoplaySession}
    {later : List AutoplaySession}
    → start_session block s sessions ≡ ok (session, later)
    → (picks : List ℕ) × (check_config s ≡ ok tt)
      × (later ≡ sessions ++ new_session s picks (length sessions + 1) ∷ [])
unfolding start_session
start_session-eq-ok block s sessions h =
    let (picks, valid, next) =
      >>=-eq-ok (raise_keno (validate_picks s.picks min_picks max_picks)) _ h in
    let (config, next) = >>-eq-ok (check_config s) _ next in
    let (allowed, next) =
      >>-eq-ok (raise_if block.blocked (blocked_by_responsible_gaming block.reason)) _ next in
    let (alone, made) = >>-eq-ok (no_session (active_session s.user_id sessions)) _ next in
    let x = new_session s picks (length sessions + 1) in
    (
      picks,
      config,
      sym (
          ap (λ (r : AutoplaySession × List AutoplaySession). r.1)
            (ok-injective {E = AutoplayError} {a = (x, sessions ++ x ∷ [])} made)),
    )

find_session-append :
    (k : ℕ) (sessions : List AutoplaySession) (x : AutoplaySession) {s : AutoplaySession}
    → find_session k (sessions ++ x ∷ []) ≡ some s
    → (find_session k sessions ≡ some s) ⊎ (x ≡ s)
unfolding find_session
find_session-append k [] x h = elim (Bool-cases (x.id == k)) [
  | inl own ↦ inr (some-injective (rw own at h))
  | inr other ↦ cc (rw other at h)
]
find_session-append k (y ∷ rest) x h = elim (Bool-cases (y.id == k)) [
  | inl own ↦ inl (rw own (rw own at h))
  | inr other ↦ elim (find_session-append k rest x (rw other at h)) [
    | inl before ↦ inl (rw other before)
    | inr new ↦ inr new
  ]
]

pub find_session-append_some :
    (k : ℕ) (sessions : List AutoplaySession) (x : AutoplaySession) {s : AutoplaySession}
    → find_session k sessions ≡ some s
    → find_session k (sessions ++ x ∷ []) ≡ some s
unfolding find_session
find_session-append_some k [] x h = cc h
find_session-append_some k (y ∷ rest) x h = elim (Bool-cases (y.id == k)) [
  | inl own ↦ rw own (rw own at h)
  | inr other ↦ rw other (find_session-append_some k rest x (rw other at h))
]

new_session-within :
    (s : Start) (picks : List ℕ) (id : ℕ)
    → bad_total s.rounds_total ≡ false
    → is_within (new_session s picks id) ≡ true
new_session-within s picks id h = go s.rounds_total h
  where
    go : (total : Option ℕ) → bad_total total ≡ false → within active 0 total ≡ true
    go none h = refl
    go (some n) h = ground (arith, h)

start_session-SessionsAreWf :
    (block : PlayBlock) (s : Start) (sessions : List AutoplaySession) {session : AutoplaySession}
    {later : List AutoplaySession}
    → SessionsAreWf sessions
    → start_session block s sessions ≡ ok (session, later)
    → SessionsAreWf later
start_session-SessionsAreWf block s sessions w h =
    let (picks, config, made) = start_session-eq-ok block s sessions h in
    let x = new_session s picks (length sessions + 1) in
    subst SessionsAreWf (sym made) (record {
      all_within = λ k y found. elim (find_session-append k sessions x found) [
        | inl before ↦ w.all_within k y before
        | inr new ↦
            sym (ap is_within new)
            ∙ new_session-within s picks (length sessions + 1) (check_config-total s config)
      ];
      in_order = InOrder-append 1 sessions x w.in_order (omega arith);
    })

stopped-SessionsAreWf :
    (id : ℕ) (reason : String) (sessions : List AutoplaySession)
    → SessionsAreWf sessions
    → SessionsAreWf (update_session (set_stopped stopped reason) id sessions)
stopped-SessionsAreWf id reason sessions w =
    update-SessionsAreWf (set_stopped stopped reason) id (set_stopped-KeepsId stopped reason)
      (λ old found. set_stopped-within stopped reason old refl (w.all_within id old found)) w

stop_session-SessionsAreWf :
    (user_id : ℕ) (sessions : List AutoplaySession)
    → SessionsAreWf sessions
    → SessionsAreWf (stop_session user_id sessions).1
unfolding stop_session stop_internal
stop_session-SessionsAreWf user_id sessions w = go (active_session user_id sessions)
  where
    go : (found : Option AutoplaySession) → SessionsAreWf (manual_stop found sessions).1
    go none = w
    go (some s) = stopped-SessionsAreWf s.id "manual" sessions w

pub settled_row-KeepsId : (delta : ℤ) → KeepsId (λ s. check_thresholds (add_net delta s))
settled_row-KeepsId delta s = check_thresholds-KeepsId (add_net delta s) ∙ add_net-KeepsId delta s

pub run_call-SessionsAreWf :
    (c : Call) (sessions : List AutoplaySession)
    → SessionsAreWf sessions
    → SessionsAreWf (run_call c sessions)
unfolding run_call place_for_active_sessions record_settlement_safely record_settlement
    stop_internal
run_call-SessionsAreWf (start block s) sessions w = go (start_session block s sessions) refl
  where
    go :
        (answer : Result AutoplayError (AutoplaySession × List AutoplaySession))
        → start_session block s sessions ≡ answer
        → SessionsAreWf (table_after sessions answer)
    go (ok (session, later)) h = start_session-SessionsAreWf block s sessions w h
    go (err e) h = w
run_call-SessionsAreWf (stop user_id) sessions w = stop_session-SessionsAreWf user_id sessions w
run_call-SessionsAreWf (open_round answer round_id) sessions w =
    place_loop-SessionsAreWf answer (active_sessions sessions) round_id sessions
      (active_sessions-Current 1 sessions w.in_order) w
run_call-SessionsAreWf (settle true none stake payout jackpot_payout) sessions w = w
run_call-SessionsAreWf (settle true (some id) stake payout jackpot_payout) sessions w =
    stopped-SessionsAreWf id "settlement_error" sessions w
run_call-SessionsAreWf (settle false none stake payout jackpot_payout) sessions w = w
run_call-SessionsAreWf (settle false (some id) stake payout jackpot_payout) sessions w =
    let delta = (payout +ℤ jackpot_payout) -ℤ stake in
    update-SessionsAreWf (λ s. check_thresholds (add_net delta s)) id (settled_row-KeepsId delta)
      (λ s found.
        check_thresholds-within (add_net delta s)
          (add_net-within delta s (w.all_within id s found)))
      w

pub run_calls-SessionsAreWf :
    (calls : List Call) (sessions : List AutoplaySession)
    → SessionsAreWf sessions
    → SessionsAreWf (run_calls calls sessions)
unfolding run_calls
run_calls-SessionsAreWf [] sessions w = w
run_calls-SessionsAreWf (c ∷ rest) sessions w =
    run_calls-SessionsAreWf rest (run_call c sessions) (run_call-SessionsAreWf c sessions w)

-- From an empty table, after any sequence of starts, stops, rounds and settlements, a session with a total of rounds has
-- placed no more tickets than the total, and fewer while it is active.
pub run_calls-within :
    (calls : List Call) (k : ℕ) (s : AutoplaySession)
    → find_session k (run_calls calls []) ≡ some s
    → is_within s ≡ true
unfolding find_session
run_calls-within calls k s h =
    (run_calls-SessionsAreWf calls []
        (record { all_within = λ j x found. cc found; in_order = tt })).all_within
      k s h

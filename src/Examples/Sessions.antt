-- ===== src/Examples/Sessions.antt =====
-- Sessions that place tickets (packages/core/keno_autoplay.py).
use mathlib.Core.Path.{subst}
use igame.Common.{false, ℕ, ◌≡◌, refl, true, none, some, List, [], ◌∷◌}
use igame.Common.Int.{pos, ◌+ℤ◌, ◌-ℤ◌}
use igame.Common.Result.{ok, err}
use igame.ResponsibleGaming.{no_block, block_for}
use igame.Keno.{check_picks, validate_picks}
use igame.Keno.Autoplay.{
  record_settlement_safely, Start, AutoplaySession, stopped, exhausted, active_session,
  check_config, start_session, update_session, find_session, stop_internal, TicketAnswer, placed,
  rejected, place_for_session, place_loop, active_sessions, place_for_active_sessions,
  record_settlement, new_session, invalid_autoplay_config, session_already_active,
  blocked_by_responsible_gaming,
}
use igame.Keno.Autoplay.Sessions.{is_within}
use igame.Keno.Autoplay.Calls.{SessionsAreWf}
use igame.Keno.Autoplay.Runs.{
  Call, start, stop, open_round, settle, run_call, run_calls, run_calls-within,
  run_calls-SessionsAreWf,
}
use igame.Keno.Autoplay.Ended.{run_calls-keeps}

abbrev two_rounds : Start
two_rounds = record {
  user_id = 7;
  picks = 3 ∷ 11 ∷ [];
  stake = pos 500;
  rounds_total = some 2;
  stop_on_win_amount = none;
  stop_on_loss_amount = some (pos 400);
}

abbrev session : AutoplaySession
session = new_session two_rounds (11 ∷ 3 ∷ []) 1

abbrev always : AutoplaySession → TicketAnswer
always s = placed

abbrev refuses : AutoplaySession → TicketAnswer
refuses s = rejected "round_full"

abbrev two_opened : List Call
two_opened = start no_block two_rounds ∷ open_round always 5 ∷ open_round always 6 ∷ []

abbrev spent : AutoplaySession
spent = record session {
  rounds_placed = 2;
  status = exhausted;
  stop_reason = some "rounds_exhausted";
  last_round_id = some 6;
}

starts : start_session no_block two_rounds [] ≡ ok (session, session ∷ [])
unfolding start_session check_config validate_picks check_picks active_session
starts = refl

starts_no_second : start_session no_block two_rounds (session ∷ []) ≡ err (session_already_active 1)
unfolding start_session check_config validate_picks check_picks active_session
starts_no_second = refl

starts_not_blocked :
    start_session (block_for "banned") two_rounds []
    ≡ err (blocked_by_responsible_gaming (some "banned"))
unfolding start_session check_config validate_picks check_picks active_session
starts_not_blocked = refl

starts_not_without_rounds :
    start_session no_block (record two_rounds { rounds_total = some 0 }) []
    ≡ err (invalid_autoplay_config "rounds_total must be between 1 and 100")
unfolding start_session check_config validate_picks check_picks active_session
starts_not_without_rounds = refl

runs : run_calls two_opened [] ≡ spent ∷ []
unfolding run_calls run_call start_session check_config validate_picks check_picks active_session
    place_for_active_sessions active_sessions place_loop place_for_session update_session
    stop_internal
runs = refl

rejects :
    run_calls (open_round refuses 5 ∷ []) (session ∷ [])
    ≡ record session { status = stopped; stop_reason = some "ticket_rejected:round_full" } ∷ []
unfolding run_calls run_call place_for_active_sessions active_sessions place_loop place_for_session
    update_session stop_internal
rejects = refl

-- The stake is lost, and the loss reaches the player's threshold.
loses :
    run_calls (settle false (some 1) (pos 500) (pos 0) (pos 0) ∷ []) (session ∷ [])
    ≡ record session {
      net_position = pos 0 -ℤ pos 500;
      status = stopped;
      stop_reason = some "stop_on_loss";
    }
      ∷ []
unfolding run_calls run_call record_settlement_safely record_settlement update_session ◌+ℤ◌ ◌-ℤ◌
loses = refl

found : find_session 1 (run_calls two_opened []) ≡ some spent
unfolding find_session run_calls run_call start_session check_config validate_picks check_picks
    active_session place_for_active_sessions active_sessions place_loop place_for_session
    update_session stop_internal
found = refl

run_calls-within_example : is_within spent ≡ true
run_calls-within_example = run_calls-within two_opened 1 spent found

one_session : SessionsAreWf (spent ∷ [])
unfolding find_session
one_session = subst SessionsAreWf runs (
    run_calls-SessionsAreWf two_opened []
      (record { all_within = λ k s h. nothing k s h; in_order = tt }))
  where
    nothing : (k : ℕ) (s : AutoplaySession) → find_session k [] ≡ some s → is_within s ≡ true
    nothing k s h = cc h

ended : find_session 1 (spent ∷ []) ≡ some spent
unfolding find_session
ended = refl

run_calls-keeps_example :
    find_session 1 (
      run_calls
        (open_round always 7 ∷ stop 7 ∷ settle false (some 1) (pos 500) (pos 0) (pos 0) ∷ [])
        (spent ∷ []))
    ≡ some spent
run_calls-keeps_example =
    run_calls-keeps
      (open_round always 7 ∷ stop 7 ∷ settle false (some 1) (pos 500) (pos 0) (pos 0) ∷ [])
      (spent ∷ []) 1 spent one_session refl ended

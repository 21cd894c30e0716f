-- ===== src/Keno/Autoplay.antt =====
-- packages/core/keno_autoplay.py: sessions that place a ticket in every round, on their table. What place_ticket
-- and check_stake_allowed answer are arguments. A negative number of rounds would fail the same test as 0.
pub mod Sessions
pub mod Rows
pub mod Calls
pub mod Runs
pub mod Ended
use Prim.Native.String.{◌++◌ as append}
use igame.Common.{
  ℕ, ◌+◌, Bool, true, false, ◌&&◌, ◌||◌, not, Option, none, some, String, List, [], ◌∷◌, ◌++◌, ◌==◌,
  if◌then◌else◌, length, leb,
}
use igame.Common.Int.{ℤ, pos, ◌+ℤ◌, ◌-ℤ◌, leb_ℤ, neg}
use igame.Common.Result.{Result, ok, err, ◌>>=◌, ◌>>◌, raise_if}
use igame.Keno.{KenoError, validate_picks, min_picks, max_picks}
use igame.ResponsibleGaming.{PlayBlock}

pub data SessionStatus : Type 0 where
  active stopped exhausted failed : SessionStatus

abbrev pub is_active : SessionStatus → Bool
is_active active = true
is_active _ = false

pub record AutoplaySession : Type 0 where
  pub id : ℕ
  pub user_id : ℕ
  pub picks : List ℕ
  pub stake : ℤ
  pub rounds_total : Option ℕ
  pub rounds_placed : ℕ
  pub stop_on_win_amount : Option ℤ
  pub stop_on_loss_amount : Option ℤ
  pub net_position : ℤ
  pub status : SessionStatus
  pub stop_reason : Option String
  pub last_round_id : Option ℕ

-- The arguments of `start_session`.
pub record Start : Type 0 where
  pub user_id : ℕ
  pub picks : List ℕ
  pub stake : ℤ
  pub rounds_total : Option ℕ
  pub stop_on_win_amount : Option ℤ
  pub stop_on_loss_amount : Option ℤ

pub data AutoplayError : Type 0 where
  keno_error : KenoError → AutoplayError
  invalid_autoplay_config : String → AutoplayError
  blocked_by_responsible_gaming : Option String → AutoplayError
  session_already_active : ℕ → AutoplayError

abbrev max_rounds_total : ℕ
max_rounds_total = 100

abbrev pub bad_total : Option ℕ → Bool
bad_total none = false
bad_total (some n) = not (leb 1 n && leb n max_rounds_total)

abbrev bad_amount : Option ℤ → Bool
bad_amount none = false
bad_amount (some a) = leb_ℤ a (pos 0)

abbrev pub not_given : {A : Type 0} → Option A → Bool
not_given none = true
not_given (some _) = false

unfoldable pub check_config : Start → Result AutoplayError (Unit {0})
check_config s =
    raise_if (leb_ℤ s.stake (pos 0)) (invalid_autoplay_config "stake must be positive")
    >> (raise_if (bad_total s.rounds_total)
          (invalid_autoplay_config "rounds_total must be between 1 and 100")
        >> (raise_if (bad_amount s.stop_on_win_amount)
              (invalid_autoplay_config "stop_on_win_amount must be positive")
            >> (raise_if (bad_amount s.stop_on_loss_amount)
                  (invalid_autoplay_config "stop_on_loss_amount must be positive")
                >> raise_if
                    (not_given s.rounds_total
                      && not_given s.stop_on_win_amount
                      && not_given s.stop_on_loss_amount)
                    (invalid_autoplay_config
                      "at least one of rounds_total, stop_on_win_amount, stop_on_loss_amount is required"))))

abbrev pub raise_keno : {A : Type 0} → Result KenoError A → Result AutoplayError A
raise_keno (ok a) = ok a
raise_keno (err e) = err (keno_error e)

-- `SELECT ... WHERE user_id = $1 AND status = 'active'`
unfoldable pub active_session : ℕ → List AutoplaySession → Option AutoplaySession
active_session user_id [] = none
active_session user_id (s ∷ rest) =
    if s.user_id == user_id && is_active s.status then some s else active_session user_id rest

abbrev pub no_session : Option AutoplaySession → Result AutoplayError (Unit {0})
no_session none = ok tt
no_session (some s) = err (session_already_active s.id)

abbrev pub new_session : Start → List ℕ → ℕ → AutoplaySession
new_session s picks id = record {
  id = id;
  user_id = s.user_id;
  picks = picks;
  stake = s.stake;
  rounds_total = s.rounds_total;
  rounds_placed = 0;
  stop_on_win_amount = s.stop_on_win_amount;
  stop_on_loss_amount = s.stop_on_loss_amount;
  net_position = pos 0;
  status = active;
  stop_reason = none;
  last_round_id = none;
}

unfoldable pub start_session :
    PlayBlock
    → Start
    → List AutoplaySession
    → Result AutoplayError (AutoplaySession × List AutoplaySession)
start_session block s sessions =
    raise_keno (validate_picks s.picks min_picks max_picks) >>= λ (picks : List ℕ).
    check_config s
    >> (raise_if block.blocked (blocked_by_responsible_gaming block.reason)
        >> (no_session (active_session s.user_id sessions)
            >> (let session = new_session s picks (length sessions + 1) in
                ok (session, sessions ++ session ∷ []))))

unfoldable pub update_session :
    (AutoplaySession → AutoplaySession) → ℕ → List AutoplaySession → List AutoplaySession
update_session f id [] = []
update_session f id (s ∷ rest) = (if s.id == id then f s else s) ∷ update_session f id rest

unfoldable pub find_session : ℕ → List AutoplaySession → Option AutoplaySession
find_session id [] = none
find_session id (s ∷ rest) = if s.id == id then some s else find_session id rest

abbrev pub set_stopped : SessionStatus → String → AutoplaySession → AutoplaySession
set_stopped status reason s =
    if is_active s.status then record s { status = status; stop_reason = some reason } else s

-- `_stop_internal`
unfoldable pub stop_internal :
    ℕ → SessionStatus → String → List AutoplaySession → List AutoplaySession
stop_internal id status reason = update_session (set_stopped status reason) id

-- The update of `stop_session` is on the player's one active session.
abbrev pub manual_stop :
    Option AutoplaySession → List AutoplaySession → Option AutoplaySession × List AutoplaySession
manual_stop none sessions = (none, sessions)
manual_stop (some s) sessions =
    (some (set_stopped stopped "manual" s), stop_internal s.id stopped "manual" sessions)

unfoldable pub stop_session :
    ℕ → List AutoplaySession → Option AutoplaySession × List AutoplaySession
stop_session user_id sessions = manual_stop (active_session user_id sessions) sessions

-- What `place_ticket` did: a ticket, a TicketRejected with its code, or another exception.
pub data TicketAnswer : Type 0 where
  placed error : TicketAnswer
  rejected : String → TicketAnswer

abbrev pub count_round : ℕ → AutoplaySession → AutoplaySession
count_round round_id s = record s {
  rounds_placed = s.rounds_placed + 1;
  last_round_id = some round_id;
}

abbrev pub is_exhausted : AutoplaySession → Bool
is_exhausted s = elim s.rounds_total [ none ↦ false | some n ↦ leb n (s.rounds_placed + 1) ]

-- `_place_for_session`, for the session as it was read, and what its caller does on an exception.
unfoldable pub place_for_session :
    TicketAnswer → AutoplaySession → ℕ → List AutoplaySession → List AutoplaySession
place_for_session error s round_id sessions = stop_internal s.id stopped "placement_error" sessions
place_for_session (rejected code) s round_id sessions =
    stop_internal s.id stopped (append "ticket_rejected:" code) sessions
place_for_session placed s round_id sessions =
    let counted = update_session (count_round round_id) s.id sessions in
    if is_exhausted s then stop_internal s.id exhausted "rounds_exhausted" counted else counted

unfoldable pub active_sessions : List AutoplaySession → List AutoplaySession
active_sessions [] = []
active_sessions (s ∷ rest) =
    let more = active_sessions rest in if is_active s.status then s ∷ more else more

-- The loop over the sessions as they were read, which the source runs in one transaction for each session;
-- no other call comes between them here; `answer` says what the ticket of each session came to.
unfoldable pub place_loop :
    (AutoplaySession → TicketAnswer)
    → List AutoplaySession
    → ℕ
    → List AutoplaySession
    → List AutoplaySession
place_loop answer [] round_id sessions = sessions
place_loop answer (s ∷ rest) round_id sessions =
    place_loop answer rest round_id (place_for_session (answer s) s round_id sessions)

unfoldable pub place_for_active_sessions :
    (AutoplaySession → TicketAnswer) → ℕ → List AutoplaySession → List AutoplaySession
place_for_active_sessions answer round_id sessions =
    place_loop answer (active_sessions sessions) round_id sessions

abbrev pub add_net : ℤ → AutoplaySession → AutoplaySession
add_net delta s =
    if is_active s.status then record s { net_position = s.net_position +ℤ delta } else s

abbrev pub is_won : AutoplaySession → Bool
is_won s = elim s.stop_on_win_amount [ none ↦ false | some a ↦ leb_ℤ a s.net_position ]

abbrev pub is_lost : AutoplaySession → Bool
is_lost s = elim s.stop_on_loss_amount [ none ↦ false | some a ↦ leb_ℤ s.net_position (neg a) ]

-- The tests on the row that the update returns.
abbrev pub check_thresholds : AutoplaySession → AutoplaySession
check_thresholds s =
    if is_won s
    then set_stopped stopped "stop_on_win" s
    else if is_lost s
    then set_stopped stopped "stop_on_loss" s
    else s

-- `record_settlement`
unfoldable pub record_settlement :
    Option ℕ → ℤ → ℤ → ℤ → List AutoplaySession → List AutoplaySession
record_settlement none stake payout jackpot_payout sessions = sessions
record_settlement (some id) stake payout jackpot_payout sessions =
    update_session (λ s. check_thresholds (add_net ((payout +ℤ jackpot_payout) -ℤ stake) s)) id
      sessions

-- `raised` says that the update of `record_settlement` raised, and changed nothing.
unfoldable pub record_settlement_safely :
    Bool → Option ℕ → ℤ → ℤ → ℤ → List AutoplaySession → List AutoplaySession
record_settlement_safely true none stake payout jackpot_payout sessions = sessions
record_settlement_safely true (some id) stake payout jackpot_payout sessions =
    stop_internal id stopped "settlement_error" sessions
record_settlement_safely false id stake payout jackpot_payout sessions =
    record_settlement id stake payout jackpot_payout sessions

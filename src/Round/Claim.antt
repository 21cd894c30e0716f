-- ===== src/Round/Claim.antt =====
-- `claim`, `_call_next_number` and `_finalize_after_window` of services/engine/round_engine.py. Times
-- are milliseconds.
use igame.Common.{
  ℕ, ◌+◌, Bool, true, false, ◌&&◌, ◌||◌, not, Option, none, some, String, List, [], ◌∷◌, ◌++◌, ◌==◌,
  leb, if◌then◌else◌, length, get_elem?,
}
use igame.Common.Result.{Result, ok, err, ◌>>=◌}
use igame.Bingo.{Grid, Pattern, winning_patterns, has_won}
use igame.Round.{
  running, settling, same_status, RoomConfig, RoundEntryState, PendingWinner, Engine, has_key,
  find_entry,
}

abbrev pub winner_tie_window : ℕ
winner_tie_window = 50

pub data Source : Type 0 where
  manual auto : Source

abbrev pub is_manual : Source → Bool
is_manual manual = true
is_manual auto = false

pub record ClaimResult : Type 0 where
  pub accepted : Bool
  pub reason : Option String

abbrev pub refuse_claim : String → ClaimResult
refuse_claim reason = record { accepted = false; reason = some reason }

abbrev pub accept_claim : ClaimResult
accept_claim = record { accepted = true; reason = none }

-- A missing card, or a call past the end of the draw.
pub data LookupError : Type 0 where
  key_error : ℕ → LookupError
  index_error : ℕ → LookupError

abbrev pub CardPool : Type 0
CardPool = List (ℕ × Grid)

unfoldable pub card_of : ℕ → CardPool → Option Grid
card_of card_no [] = none
card_of card_no ((c, grid) ∷ rest) = if c == card_no then some grid else card_of card_no rest

abbrev pub no_patterns : List Pattern → Bool
no_patterns [] = true
no_patterns (_ ∷ _) = false

-- `any(w.user_id == user_id and w.card_no == card_no for w in self._pending_winners)`
unfoldable pub is_pending : ℕ → ℕ → List PendingWinner → Bool
is_pending user_id card_no [] = false
is_pending user_id card_no (w ∷ rest) =
    (w.user_id == user_id && w.card_no == card_no) || is_pending user_id card_no rest

abbrev pub add_winner : Engine → ℕ → ℕ → List Pattern → Engine
add_winner engine user_id card_no won = record engine {
  pending_winners =
      engine.pending_winners
      ++ record {
        user_id = user_id;
        card_no = card_no;
        patterns = won;
        call_index = engine.call_index;
      }
        ∷ [];
}

abbrev pub in_window : Option ℕ → ℕ → Bool
in_window none now = false
in_window (some deadline) now = leb now deadline

-- The part of a valid claim under the lock of the winners.
unfoldable pub register : Engine → ℕ → ℕ → List Pattern → ℕ → ClaimResult × Engine
register engine user_id card_no won now =
    if is_pending user_id card_no engine.pending_winners
    then (refuse_claim "already_claimed", engine)
    else if same_status engine.status running
    then (
      accept_claim,
      record (add_winner engine user_id card_no won) {
        status = settling;
        winner_window_deadline = some (now + winner_tie_window);
      },
    )
    else if same_status engine.status settling && in_window engine.winner_window_deadline now
    then (accept_claim, add_winner engine user_id card_no won)
    else (refuse_claim "round_already_settled", engine)

-- A manual claim without a single line locks the card while the round runs.
abbrev pub lock_card : Engine → ℕ → ℕ → Engine
lock_card engine user_id card_no = record engine {
  locked_out = (user_id, card_no) ∷ engine.locked_out;
}

unfoldable pub no_pattern : Engine → ℕ → ℕ → List Pattern → Source → ClaimResult × Engine
no_pattern engine user_id card_no won source =
    if is_manual source && same_status engine.status running && no_patterns won
    then (refuse_claim "no_pattern", lock_card engine user_id card_no)
    else (refuse_claim "no_pattern", engine)

unfoldable pub check_card : RoomConfig → Engine → Grid → ℕ → ℕ → Source → ℕ → ClaimResult × Engine
check_card room engine grid user_id card_no source now =
    let won = winning_patterns grid engine.called room.win_patterns in
    if leb room.min_winning_lines (length won)
    then register engine user_id card_no won now
    else no_pattern engine user_id card_no won source

unfoldable pub claim :
    RoomConfig → CardPool → Engine → ℕ → ℕ → Source → ℕ → Result LookupError (ClaimResult × Engine)
claim room pool engine user_id card_no source now =
    if has_key user_id card_no engine.locked_out
    then ok (refuse_claim "locked_out", engine)
    else elim (find_entry user_id card_no engine.entries) [
      | none ↦ ok (refuse_claim "not_in_round", engine)
      | some entry ↦
          if not (same_status engine.status running || same_status engine.status settling)
          then ok (refuse_claim "round_not_running", engine)
          else elim (card_of card_no pool) [
            | none ↦ err (key_error card_no)
            | some grid ↦ ok (check_card room engine grid user_id card_no source now)
          ]
    ]

-- A claim that raises is undone, and the card is tried again at the next call.
abbrev pub after_claim : Engine → Result LookupError (ClaimResult × Engine) → Engine
after_claim engine (ok r) = r.1
after_claim engine (err e) = engine

-- The test of one card in the scan that follows a call.
unfoldable pub auto_claim :
    RoomConfig → CardPool → ℕ → RoundEntryState → Engine → Result LookupError Engine
auto_claim room pool now e engine =
    if not e.auto_mark
      || has_key e.user_id e.card_no engine.auto_claimed
      || has_key e.user_id e.card_no engine.locked_out
    then ok engine
    else elim (card_of e.card_no pool) [
      | none ↦ err (key_error e.card_no)
      | some grid ↦
          if has_won grid engine.called room.win_patterns room.min_winning_lines
          then ok (
              after_claim engine (
                claim room pool
                  (record engine { auto_claimed = (e.user_id, e.card_no) ∷ engine.auto_claimed })
                  e.user_id e.card_no auto now))
          else ok engine
    ]

unfoldable pub scan :
    RoomConfig → CardPool → ℕ → List RoundEntryState → Engine → Result LookupError Engine
scan room pool now [] engine = ok engine
scan room pool now (e ∷ rest) engine =
    auto_claim room pool now e engine >>= λ next. scan room pool now rest next

abbrev pub add_call : Engine → ℕ → Engine
add_call engine number = record engine {
  call_index = engine.call_index + 1;
  called = number ∷ engine.called;
}

-- `is_running` is whether the row of the round is still running, by the update of its call index.
unfoldable pub call_next_number :
    RoomConfig → CardPool → Bool → Engine → ℕ → Result LookupError (Bool × Engine)
call_next_number room pool is_running engine now =
    elim (get_elem? engine.draw_order engine.call_index) [
      | none ↦ err (index_error engine.call_index)
      | some number ↦
          if is_running
          then scan room pool now engine.entries (add_call engine number)
            >>= (λ next. ok (true, next))
          else ok (false, add_call engine number)
    ]

-- When the window is over, the winners are taken out and no further claim is in the window.
unfoldable pub take_winners : Engine → List PendingWinner × Engine
take_winners engine =
    (engine.pending_winners, record engine { pending_winners = []; winner_window_deadline = none })

-- ===== src/Round/Drop.antt =====
-- `drop_card` of services/engine/round_engine.py.
use igame.Common.{ℕ, Bool, false, ◌&&◌, ◌||◌, not, none, some, List, [], ◌∷◌, ◌==◌, if◌then◌else◌}
use igame.Common.Int.{ℤ, pos, ◌-ℤ◌}
use igame.Common.Result.{Result, ok, err}
use igame.Ledger.{LedgerTransaction, get_or_create_account}
use igame.Ledger.Post.{PostError, commit_post}
use igame.Ledger as L
use igame.Round.{lobby, same_status, RoomConfig, Engine, find_entry, remove_entry}
use igame.Round.Join.{
  RoundRow, EntryRow, Tables, refuse, accept, Answer, round_status, is_lobby, update_round,
  transfer, key_of, both_accounts,
}

abbrev pub drop_player : ℤ → RoundRow → RoundRow
drop_player stake r = record r { pot = r.pot -ℤ stake; player_count = r.player_count -ℤ pos 1 }

-- `DELETE FROM round_entries WHERE round_id = ... AND user_id = ... AND card_no = ...`
unfoldable pub has_row : ℕ → ℕ → ℕ → List EntryRow → Bool
has_row id user_id card_no [] = false
has_row id user_id card_no (r ∷ rest) =
    (r.round_id == id && r.user_id == user_id && r.card_no == card_no)
    || has_row id user_id card_no rest

unfoldable pub delete_rows : ℕ → ℕ → ℕ → List EntryRow → List EntryRow
delete_rows id user_id card_no [] = []
delete_rows id user_id card_no (r ∷ rest) =
    let kept = delete_rows id user_id card_no rest in
    if r.round_id == id && r.user_id == user_id && r.card_no == card_no then kept else r ∷ kept

abbrev pub after_drop : RoomConfig → Engine → ℕ → ℕ → Engine
after_drop room engine user_id card_no = record engine {
  entries = remove_entry user_id card_no engine.entries;
  dropped_this_round = (user_id, card_no) ∷ engine.dropped_this_round;
  total_pot = engine.total_pot -ℤ room.stake;
}

abbrev pub dropped_tables : RoomConfig → Engine → Tables → ℕ → ℕ → L.Db → Tables
dropped_tables room engine t user_id card_no ledger = record {
  rounds = update_round (drop_player room.stake) engine.round_id t.rounds;
  round_entries = delete_rows engine.round_id user_id card_no t.round_entries;
  ledger = ledger;
}

unfoldable pub finish_drop :
    RoomConfig → Engine → Tables → ℕ → ℕ → Result PostError (LedgerTransaction × L.Db) → Answer
finish_drop room engine t user_id card_no (ok (txn, ledger)) = ok (
  accept,
  after_drop room engine user_id card_no,
  dropped_tables room engine t user_id card_no ledger,
)
finish_drop room engine t user_id card_no (err e) = err e

unfoldable pub post_drop : RoomConfig → Engine → Tables → ℕ → ℕ → Answer
post_drop room engine t user_id card_no =
    let (cash, pot, ledger) = both_accounts t.ledger user_id in
    finish_drop room engine t user_id card_no (
      commit_post ledger (
        transfer "refund" (key_of "drop" engine.round_id user_id card_no) pot room.stake cash
          engine.round_id))

unfoldable pub drop_card : RoomConfig → Engine → Tables → ℕ → ℕ → Answer
drop_card room engine t user_id card_no =
    if not (same_status engine.status lobby)
    then ok (refuse "not_droppable", engine, t)
    else elim (find_entry user_id card_no engine.entries) [
      | none ↦ ok (refuse "not_in_round", engine, t)
      | some entry ↦
          if not (is_lobby (round_status engine.round_id t.rounds))
          then ok (refuse "not_droppable", engine, t)
          else if not (has_row engine.round_id user_id card_no t.round_entries)
          then ok (refuse "not_in_round", engine, t)
          else post_drop room engine t user_id card_no
    ]

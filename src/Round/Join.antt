-- ===== src/Round/Join.antt =====
-- `join` of services/engine/round_engine.py, on the tables of rounds and of their entries and on the
-- ledger.
use Prim.Native.String.{◌++◌ as append}
use igame.Common.{
  zero, suc, ◌/◌, get_or, ◌%◌, ltb, ℕ, ◌+◌, Bool, true, false, ◌&&◌, ◌||◌, not, Option, none, some,
  String, List, [], ◌∷◌, ◌++◌, ◌==◌, leb, ltb, if◌then◌else◌, length,
}
use igame.Common.Int.{ℤ, pos, neg, ◌+ℤ◌}
use igame.Common.Counts.{contains}
use igame.Common.Result.{Result, ok, err}
use igame.ResponsibleGaming.{PlayBlock}
use igame.Ledger.{LedgerTransaction, get_or_create_account}
use igame.Ledger.Post.{PostError, insufficient_funds, Request, commit_post}
use igame.Ledger as L
use igame.Round.{
  Status, idle, lobby, same_status, RoomConfig, RoundEntryState, Engine, has_key, cards_held,
  player_count, fresh_engine,
}

-- A row of `rounds`.
pub record RoundRow : Type 0 where
  pub id : ℕ
  pub room_id : ℕ
  pub seq : ℕ
  pub status : Status
  pub stake : ℤ
  pub pot : ℤ
  pub player_count : ℤ

-- A row of `round_entries`.
pub record EntryRow : Type 0 where
  pub round_id : ℕ
  pub card_no : ℕ
  pub user_id : ℕ
  pub auto_mark : Bool
  pub stake_txn_id : Option ℕ

pub record Tables : Type 0 where
  pub rounds : List RoundRow
  pub round_entries : List EntryRow
  pub ledger : L.Db

pub record JoinResult : Type 0 where
  pub accepted : Bool
  pub reason : Option String

abbrev pub refuse : String → JoinResult
refuse reason = record { accepted = false; reason = some reason }

abbrev pub accept : JoinResult
accept = record { accepted = true; reason = none }

-- What a call answers: its result, or an exception, with the engine and the tables it leaves.
abbrev pub Answer : Type 0
Answer = Result PostError (JoinResult × Engine × Tables)

unfoldable pub round_status : ℕ → List RoundRow → Option Status
round_status id [] = none
round_status id (r ∷ rest) = if r.id == id then some r.status else round_status id rest

abbrev pub is_lobby : Option Status → Bool
is_lobby none = false
is_lobby (some s) = same_status s lobby

-- The primary key of `round_entries`.
unfoldable pub card_taken : ℕ → ℕ → List EntryRow → Bool
card_taken id card_no [] = false
card_taken id card_no (r ∷ rest) =
    (r.round_id == id && r.card_no == card_no) || card_taken id card_no rest

-- `UPDATE rounds SET pot = pot + ..., player_count = ... WHERE id = ...`
unfoldable pub update_round : (RoundRow → RoundRow) → ℕ → List RoundRow → List RoundRow
update_round f id [] = []
update_round f id (r ∷ rest) = (if r.id == id then f r else r) ∷ update_round f id rest

abbrev pub add_player : ℤ → RoundRow → RoundRow
add_player stake r = record r { pot = r.pot +ℤ stake; player_count = r.player_count +ℤ pos 1 }

-- The two entries of a stake or of a refund: from the first account to the second.
abbrev pub transfer : String → String → ℕ → ℤ → ℕ → ℕ → Request
transfer kind key from stake to round_id = record {
  kind = kind;
  entries =
      record { account_id = from; amount = neg stake }
      ∷ record { account_id = to; amount = stake }
      ∷ [];
  idempotency_key = key;
  round_id = some round_id;
  payment_id = none;
  memo = none;
  created_by = "system";
  created_at = none;
}

abbrev pub digits : List String
digits = "0" ∷ "1" ∷ "2" ∷ "3" ∷ "4" ∷ "5" ∷ "6" ∷ "7" ∷ "8" ∷ "9" ∷ []

-- A number has fewer digits than its successor has units.
unfoldable pub decimal_loop : ℕ → ℕ → String
decimal_loop zero n = ""
decimal_loop (suc fuel) n =
    let rest = decimal_loop fuel (n / 10) in
    if ltb n 10 then get_or digits n "" else append rest (get_or digits (n % 10) "")

-- `f"{prefix}-{round_id}-{user_id}-{card_no}"`
unfoldable pub key_of : String → ℕ → ℕ → ℕ → String
unfolding decimal_loop
key_of prefix round_id user_id card_no = append prefix (
    append "-" (
      append (decimal_loop (suc round_id) round_id) (
        append "-" (
          append (decimal_loop (suc user_id) user_id)
            (append "-" (decimal_loop (suc card_no) card_no))))))

-- `self._entries[(user_id, card_no)] = ...`
unfoldable pub put_entry : RoundEntryState → List RoundEntryState → List RoundEntryState
put_entry e [] = e ∷ []
put_entry e (x ∷ rest) =
    if x.user_id == e.user_id && x.card_no == e.card_no then e ∷ rest else x ∷ put_entry e rest

abbrev pub entry_of : ℕ → ℕ → Bool → RoundEntryState
entry_of user_id card_no auto_mark = record {
  user_id = user_id;
  card_no = card_no;
  auto_mark = auto_mark;
}

abbrev pub after_join : RoomConfig → Engine → ℕ → ℕ → Bool → Engine
after_join room engine user_id card_no auto_mark = record engine {
  entries = put_entry (entry_of user_id card_no auto_mark) engine.entries;
  total_pot = engine.total_pot +ℤ room.stake;
}

-- The tables when the transaction of a join commits.
abbrev pub joined_tables : RoomConfig → Engine → Tables → ℕ → ℕ → Bool → ℕ → L.Db → Tables
joined_tables room engine t user_id card_no auto_mark txn ledger = record {
  rounds = update_round (add_player room.stake) engine.round_id t.rounds;
  round_entries =
      t.round_entries
      ++ record {
        round_id = engine.round_id;
        card_no = card_no;
        user_id = user_id;
        auto_mark = auto_mark;
        stake_txn_id = some txn;
      }
        ∷ [];
  ledger = ledger;
}

-- What follows the post of the stake. Too little money is a refusal, any other error an exception.
unfoldable pub finish_join :
    RoomConfig
    → Engine
    → Tables
    → ℕ
    → ℕ
    → Bool
    → Result PostError (LedgerTransaction × L.Db)
    → Answer
finish_join room engine t user_id card_no auto_mark (ok (txn, ledger)) = ok (
  accept,
  after_join room engine user_id card_no auto_mark,
  joined_tables room engine t user_id card_no auto_mark txn.id ledger,
)
finish_join room engine t user_id card_no auto_mark (err (insufficient_funds _ _)) =
    ok (refuse "insufficient_funds", engine, t)
finish_join room engine t user_id card_no auto_mark (err e) = err e

-- The accounts of a player and of the pot, made when they are missing.
unfoldable pub both_accounts : L.Db → ℕ → ℕ × ℕ × L.Db
both_accounts ledger user_id =
    let (cash, ledger') = get_or_create_account ledger (some user_id) "user_cash" "ETB" in
    let (pot, ledger'') = get_or_create_account ledger' none "pot_escrow" "ETB" in
    (cash.id, pot.id, ledger'')

unfoldable pub post_stake : RoomConfig → Engine → Tables → ℕ → ℕ → Bool → Answer
post_stake room engine t user_id card_no auto_mark =
    let (cash, pot, ledger) = both_accounts t.ledger user_id in
    finish_join room engine t user_id card_no auto_mark (
      commit_post ledger (
        transfer "stake" (key_of "stake" engine.round_id user_id card_no) cash room.stake pot
          engine.round_id))

abbrev pub reason_of : Option String → String
reason_of none = ""
reason_of (some reason) = reason

-- The transaction of a join: `block` is what check_stake_allowed answers.
unfoldable pub join_transaction : RoomConfig → PlayBlock → Engine → Tables → ℕ → ℕ → Bool → Answer
join_transaction room block engine t user_id card_no auto_mark =
    if not (is_lobby (round_status engine.round_id t.rounds))
    then ok (refuse "not_joinable", engine, t)
    else if block.blocked
    then ok (refuse (reason_of block.reason), engine, t)
    else if card_taken engine.round_id card_no t.round_entries
    then ok (refuse "card_taken", engine, t)
    else post_stake room engine t user_id card_no auto_mark

-- The tests under the lock of the joins.
unfoldable pub join_lobby : RoomConfig → PlayBlock → Engine → Tables → ℕ → ℕ → Bool → Answer
join_lobby room block engine t user_id card_no auto_mark =
    let held = cards_held user_id engine.entries in
    if has_key user_id card_no engine.dropped_this_round
    then ok (refuse "card_already_dropped", engine, t)
    else if held == 0 && leb room.max_players (player_count engine.entries)
    then ok (refuse "room_full", engine, t)
    else if leb room.max_cards_per_player held
    then ok (refuse "max_cards_reached", engine, t)
    else join_transaction room block engine t user_id card_no auto_mark

-- `COALESCE(MAX(seq), 0)` of the rounds of a room.
unfoldable pub latest_seq : ℕ → List RoundRow → ℕ
latest_seq room_id [] = 0
latest_seq room_id (r ∷ rest) =
    let latest = latest_seq room_id rest in
    if r.room_id == room_id && ltb latest r.seq then r.seq else latest

abbrev pub new_round : RoomConfig → List RoundRow → RoundRow
new_round room rounds = record {
  id = length rounds + 1;
  room_id = room.id;
  seq = latest_seq room.id rounds + 1;
  status = lobby;
  stake = room.stake;
  pot = pos 0;
  player_count = pos 0;
}

-- `_start_new_round`, when the engine is idle.
unfoldable pub start_if_idle : RoomConfig → Engine → Tables → Engine × Tables
unfolding fresh_engine
start_if_idle room engine t =
    if same_status engine.status idle
    then (
      fresh_engine (length t.rounds + 1) engine,
      record t { rounds = t.rounds ++ new_round room t.rounds ∷ [] },
    )
    else (engine, t)

-- `card_pool` holds the numbers of the cards.
unfoldable pub join : RoomConfig → List ℕ → PlayBlock → Engine → Tables → ℕ → ℕ → Bool → Answer
join room card_pool block engine t user_id card_no auto_mark =
    let (engine, t) = start_if_idle room engine t in
    if not (same_status engine.status lobby)
    then ok (refuse "not_joinable", engine, t)
    else if not (contains card_no card_pool)
    then ok (refuse "invalid_card", engine, t)
    else join_lobby room block engine t user_id card_no auto_mark

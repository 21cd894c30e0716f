-- ===== src/Round/Settle.antt =====
-- The two ends of a round: refund_round_in_transaction of services/engine/refunds.py, and
-- _settle_with_winners of services/engine/round_engine.py. The posts of one transaction are checked
-- one by one: the trigger's total is one of a single post.
use igame.Common.{
  String, ℕ, ◌+◌, Bool, true, false, ◌||◌, Option, none, some, List, [], ◌∷◌, ◌++◌, ◌==◌,
  if◌then◌else◌, length,
}
use igame.Common.Int.{ℤ, pos, neg, ◌+ℤ◌}
use igame.Common.Result.{Result, ok, err, ◌>>=◌}
use igame.Ledger.{Entry, LedgerTransaction, get_or_create_account}
use igame.Ledger.Post.{PostError, Request, commit_post}
use igame.Ledger as L
use igame.Settlement.{ValueError, compute_derash, split_derash}
use igame.Round.{Status, done, voided, same_status, RoomConfig, PendingWinner, Engine}
use igame.Round.Join.{RoundRow, EntryRow, Tables, update_round, decimal_loop, key_of, transfer}
use Prim.Native.String.{◌++◌ as append}

-- `status in TERMINAL_STATUSES`
abbrev pub is_terminal : Status → Bool
is_terminal s = same_status s done || same_status s voided

unfoldable pub find_round : ℕ → List RoundRow → Option RoundRow
find_round id [] = none
find_round id (r ∷ rest) = if r.id == id then some r else find_round id rest

abbrev pub set_round_status : Status → RoundRow → RoundRow
set_round_status s r = record r { status = s }

-- `SELECT user_id, card_no FROM round_entries WHERE round_id = $1`
unfoldable pub entrants : ℕ → List EntryRow → List EntryRow
entrants id [] = []
entrants id (r ∷ rest) = let more = entrants id rest in if r.round_id == id then r ∷ more else more

-- The loop over the entrants: one post for each card.
unfoldable pub refund_entrants : ℕ → String → ℕ → ℤ → List EntryRow → L.Db → Result PostError L.Db
refund_entrants id reason pot stake [] ledger = ok ledger
refund_entrants id reason pot stake (r ∷ rest) ledger =
    let (cash, ledger') = get_or_create_account ledger (some r.user_id) "user_cash" "ETB" in
    commit_post ledger'
      (record (transfer "refund" (key_of "refund" id r.user_id r.card_no) pot stake cash.id id) {
        memo = some reason;
      })
    >>= λ posted. refund_entrants id reason pot stake rest posted.1

unfoldable pub refund_open : ℕ → String → RoundRow → Tables → Result PostError (ℕ × Tables)
refund_open id reason row t =
    let (pot, ledger) = get_or_create_account t.ledger none "pot_escrow" "ETB" in
    refund_entrants id reason pot.id row.stake (entrants id t.round_entries) ledger >>= λ refunded.
    ok (
      length (entrants id t.round_entries),
      record t { rounds = update_round (set_round_status voided) id t.rounds; ledger = refunded },
    )

-- How many were refunded: none when the round is missing or over.
unfoldable pub refund_round : Tables → ℕ → String → Result PostError (ℕ × Tables)
refund_round t id reason = elim (find_round id t.rounds) [
  | none ↦ ok (0, t)
  | some row ↦ if is_terminal row.status then ok (0, t) else refund_open id reason row t
]

-- The cash accounts of the winners.
unfoldable pub winner_accounts : List PendingWinner → L.Db → List ℕ × L.Db
winner_accounts [] ledger = ([], ledger)
winner_accounts (w ∷ ws) ledger =
    let (cash, ledger') = get_or_create_account ledger (some w.user_id) "user_cash" "ETB" in
    let (rest, ledger'') = winner_accounts ws ledger' in (cash.id ∷ rest, ledger'')

-- `Entry(acct.id, share) for acct, share in zip(winner_cash_accounts, shares)`
unfoldable pub share_entries : List ℕ → List ℤ → List Entry
share_entries [] shares = []
share_entries (a ∷ accounts) [] = []
share_entries (a ∷ accounts) (s ∷ shares) =
    record { account_id = a; amount = s } ∷ share_entries accounts shares

abbrev pub payout : ℕ → List Entry → Request
payout id entries = record {
  kind = "payout";
  entries = entries;
  idempotency_key = append "settle-" (decimal_loop (id + 1) id);
  round_id = some id;
  payment_id = none;
  memo = none;
  created_by = "system";
  created_at = none;
}

unfoldable pub payout_entries : ℕ → ℤ → List ℕ → List ℤ → ℕ → ℤ → List Entry
unfolding share_entries
payout_entries pot_account pot accounts shares house_account house_total =
    record { account_id = pot_account; amount = neg pot } ∷ share_entries accounts shares
    ++ record { account_id = house_account; amount = house_total } ∷ []

unfoldable pub pay_winners :
    ℕ → ℤ → List PendingWinner → List ℤ → ℤ → Tables → Result PostError (Bool × Tables)
pay_winners id pot winners shares house_total t =
    let (pot_account, ledger) = get_or_create_account t.ledger none "pot_escrow" "ETB" in
    let (house, ledger') = get_or_create_account ledger none "house_revenue" "ETB" in
    let (accounts, ledger'') = winner_accounts winners ledger' in
    commit_post ledger''
      (payout id (payout_entries pot_account.id pot accounts shares house.id house_total))
    >>= λ posted. ok (
      true,
      record t { rounds = update_round (set_round_status done) id t.rounds; ledger = posted.1 },
    )

-- The transaction of a settlement: false when the round is missing or already over.
unfoldable pub settle_transaction :
    ℕ → ℤ → List PendingWinner → List ℤ → ℤ → Tables → Result PostError (Bool × Tables)
settle_transaction id pot winners shares house_total t = elim (find_round id t.rounds) [
  | none ↦ ok (false, t)
  | some row ↦
      if is_terminal row.status
      then ok (false, t)
      else pay_winners id pot winners shares house_total t
]

pub data SettleError : Type 0 where
  bad_value : ValueError → SettleError
  bad_post : PostError → SettleError

abbrev pub as_value :
    {A : Type 0}
    → Result ValueError A
    → (A → Result SettleError (Bool × Tables))
    → Result SettleError (Bool × Tables)
as_value (ok a) next = next a
as_value (err e) next = err (bad_value e)

abbrev pub as_post : Result PostError (Bool × Tables) → Result SettleError (Bool × Tables)
as_post (ok a) = ok a
as_post (err e) = err (bad_post e)

-- The engine goes back to idle after either answer.
unfoldable pub settle_with_winners :
    RoomConfig → Engine → List PendingWinner → Tables → Result SettleError (Bool × Tables)
settle_with_winners room engine winners t =
    as_value (compute_derash engine.total_pot room.house_cut_bps) λ cut.
      as_value (split_derash cut.0 (pos (length winners))) λ split.
        as_post
          (settle_transaction engine.round_id engine.total_pot winners split.0 (cut.1 +ℤ split.1) t)

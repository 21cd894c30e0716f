-- ===== src/Bonuses.antt =====
-- packages/core/bonuses.py: grants of bonus money, and what ends them, on the table of bonuses and on the
-- ledger.
pub mod Rows
pub mod Lifecycle
pub mod Ends
pub mod Steps
pub mod Once
use Prim.Native.String.{◌++◌ as append}
use text.Mathlib.Text.{◌==◌ as str_eq}
use igame.Common.{
  ℕ, ◌+◌, Bool, true, false, ◌&&◌, ◌||◌, not, Option, none, some, String, List, [], ◌∷◌, ◌++◌, ◌==◌,
  if◌then◌else◌, length,
}
use igame.Common.Int.{ℤ}
use igame.Common.Result.{Result, ok, err, ◌>>=◌}
use igame.Ledger as L
use igame.Ledger.{LedgerTransaction, opt_eq}
use igame.Ledger.Post.{PostError, find_transaction}
use igame.Ledger.Wallets.{Side, side_of, house_side}
use igame.Ledger.Transfers.{Move, move_money, move_back}
use igame.Payments.Payouts.{decimal}

pub data BonusStatus : Type 0 where
  active converted expired revoked : BonusStatus

abbrev pub is_active : BonusStatus → Bool
is_active active = true
is_active _ = false

pub record Bonus : Type 0 where
  pub id : ℕ
  pub user_id : ℕ
  pub rule_id : Option ℕ
  pub referral_of_user_id : Option ℕ
  pub amount : ℤ
  pub wagering_required : ℤ
  pub status : BonusStatus
  pub grant_txn_id : ℕ
  pub convert_txn_id : Option ℕ
  pub expires_at : Option ℕ
  pub granted_by_admin_id : Option ℕ
  pub reason : Option String

pub record BonusesDb : Type 0 where
  pub bonuses : List Bonus
  pub ledger : L.Db

pub data BonusError : Type 0 where
  bonus_not_found assertion unique_violation : BonusError
  post_error : PostError → BonusError

-- The arguments of `grant_bonus`.
pub record Grant : Type 0 where
  pub user_id : ℕ
  pub idempotency_key : String
  pub amount : ℤ
  pub wagering_required : ℤ
  pub rule_id : Option ℕ
  pub referral_of_user_id : Option ℕ
  pub expires_at : Option ℕ
  pub granted_by_admin_id : Option ℕ
  pub reason : Option String

unfoldable pub find_bonus : ℕ → List Bonus → Option Bonus
find_bonus id [] = none
find_bonus id (b ∷ rest) = if b.id == id then some b else find_bonus id rest

-- `SELECT ... FROM bonuses WHERE grant_txn_id = $1`
unfoldable pub find_granted : ℕ → List Bonus → Option Bonus
find_granted txn [] = none
find_granted txn (b ∷ rest) = if b.grant_txn_id == txn then some b else find_granted txn rest

unfoldable pub update_bonus : (Bonus → Bonus) → ℕ → List Bonus → List Bonus
update_bonus f id [] = []
update_bonus f id (b ∷ rest) = (if b.id == id then f b else b) ∷ update_bonus f id rest

-- The unique index on `referral_of_user_id`, which leaves nulls alone.
unfoldable pub has_referral : Option ℕ → List Bonus → Bool
has_referral none bonuses = false
has_referral (some id) [] = false
has_referral (some id) (b ∷ rest) =
    opt_eq b.referral_of_user_id (some id) || has_referral (some id) rest

abbrev pub bonus_side : ℕ → Side
bonus_side u = side_of u "user_bonus"

abbrev pub promo : Side
promo = house_side "promo_expense"

abbrev pub bonus_move : String → String → Side → Side → ℤ → Option String → Move
bonus_move kind key source target amount memo = record {
  kind = kind;
  idempotency_key = key;
  source = source;
  target = target;
  amount = amount;
  payment_id = none;
  memo = memo;
  created_by = "system";
}

abbrev pub raise_post : {A : Type 0} → Result PostError A → Result BonusError A
raise_post (ok a) = ok a
raise_post (err e) = err (post_error e)

abbrev pub new_bonus : Grant → BonusesDb → ℕ → Bonus
new_bonus g db txn = record {
  id = length db.bonuses + 1;
  user_id = g.user_id;
  rule_id = g.rule_id;
  referral_of_user_id = g.referral_of_user_id;
  amount = g.amount;
  wagering_required = g.wagering_required;
  status = active;
  grant_txn_id = txn;
  convert_txn_id = none;
  expires_at = g.expires_at;
  granted_by_admin_id = g.granted_by_admin_id;
  reason = g.reason;
}

-- `assert existing is not None`
abbrev pub asserted : BonusesDb → Option Bonus → Result BonusError (Bonus × BonusesDb)
asserted db none = err assertion
asserted db (some b) = ok (b, db)

abbrev pub grant_move : Grant → Move
grant_move g =
    bonus_move "bonus_grant" g.idempotency_key promo (bonus_side g.user_id) g.amount g.reason

-- The insert of the row.
abbrev pub insert_bonus :
    Grant → BonusesDb → LedgerTransaction × L.Db → Result BonusError (Bonus × BonusesDb)
insert_bonus g db (txn, ledger) =
    if has_referral g.referral_of_user_id db.bonuses
    then err unique_violation
    else ok (
      new_bonus g db txn.id,
      record { bonuses = db.bonuses ++ new_bonus g db txn.id ∷ []; ledger = ledger },
    )

-- By the transaction that has the key already, if any.
abbrev pub grant_by :
    Grant → BonusesDb → Option LedgerTransaction → Result BonusError (Bonus × BonusesDb)
grant_by g db (some txn) = asserted db (find_granted txn.id db.bonuses)
grant_by g db none = raise_post (move_money db.ledger (grant_move g)) >>= insert_bonus g db

unfoldable pub grant_bonus : Grant → BonusesDb → Result BonusError (Bonus × BonusesDb)
grant_bonus g db = grant_by g db (find_transaction g.idempotency_key db.ledger.transactions)

-- A post, and then the row of the bonus.
abbrev pub post_and_end :
    BonusesDb
    → ℕ
    → (ℕ → Bonus → Bonus)
    → Result PostError (LedgerTransaction × L.Db)
    → Result BonusError (Bool × BonusesDb)
post_and_end db id f posted = raise_post posted >>= λ (r : LedgerTransaction × L.Db).
    ok (true, record { bonuses = update_bonus (f r.0.id) id db.bonuses; ledger = r.1 })

abbrev pub set_converted : ℕ → Bonus → Bonus
set_converted txn b = record b { status = converted; convert_txn_id = some txn }

abbrev pub set_bonus_status : BonusStatus → Bonus → Bonus
set_bonus_status status b = record b { status = status }

abbrev pub convert_move : ℕ → Bonus → Move
convert_move id b =
    bonus_move "bonus_convert" (append "bonus-convert-" (decimal id)) (bonus_side b.user_id)
      (side_of b.user_id "user_cash") b.amount none

abbrev pub take_back : String → ℕ → Bonus → Move
take_back prefix id b =
    bonus_move "bonus_grant" (append prefix (decimal id)) (bonus_side b.user_id) promo b.amount none

-- The row under its lock: a missing one raises, and one that is not active is left alone.
abbrev pub if_active :
    BonusesDb
    → Option Bonus
    → (Bonus → Result BonusError (Bool × BonusesDb))
    → Result BonusError (Bool × BonusesDb)
if_active db none next = err bonus_not_found
if_active db (some b) next = if is_active b.status then next b else ok (false, db)

unfoldable pub convert_bonus_to_cash : ℕ → BonusesDb → Result BonusError (Bool × BonusesDb)
convert_bonus_to_cash id db =
    if_active db (find_bonus id db.bonuses)
      (λ b. post_and_end db id set_converted (move_money db.ledger (convert_move id b)))

unfoldable pub expire_bonus : ℕ → BonusesDb → Result BonusError (Bool × BonusesDb)
expire_bonus id db = if_active db (find_bonus id db.bonuses) (λ b.
    post_and_end db id (λ txn. set_bonus_status expired)
      (move_back db.ledger (take_back "bonus-expire-" id b)))

unfoldable pub revoke_bonus : ℕ → BonusesDb → Result BonusError (Bool × BonusesDb)
revoke_bonus id db = if_active db (find_bonus id db.bonuses) (λ b.
    post_and_end db id (λ txn. set_bonus_status revoked)
      (move_back db.ledger (take_back "bonus-revoke-" id b)))

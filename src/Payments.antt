-- ===== src/Payments.antt =====
-- services/payments: withdrawals and payouts, and the reviews of services/admin/queries.py, on the
-- tables of users, payments and payment methods and on the ledger. Times are seconds.
pub mod Reference
pub mod Withdrawals
pub mod Payouts
pub mod Review
pub mod Keys
pub mod Open
pub mod Positive
pub mod Taken
pub mod Free
pub mod Lifecycle
pub mod Changes
pub mod Requests
pub mod Rows
pub mod Settled
pub mod Statuses
pub mod Dispatch
pub mod Decisions
pub mod Ends
pub mod Steps
pub mod Vetting
pub mod Twice
use text.Mathlib.Text.{◌==◌ as str_eq}
use igame.Common.{
  ℕ, ◌+◌, Bool, true, false, ◌&&◌, ◌||◌, Option, none, some, String, List, [], ◌∷◌, ◌++◌, ◌==◌,
  if◌then◌else◌, length,
}
use igame.Common.Int.{ℤ, pos, ◌+ℤ◌}
use igame.Ledger as L

pub data Direction : Type 0 where
  incoming outgoing : Direction

abbrev pub is_out : Direction → Bool
is_out incoming = false
is_out outgoing = true

pub data PaymentStatus : Type 0 where
  pending processing succeeded failed cancelled review approved rejected : PaymentStatus

-- Statuses are compared by their place in PAYMENT_STATUSES.
abbrev pub status_place : PaymentStatus → ℕ
status_place pending = 0
status_place processing = 1
status_place succeeded = 2
status_place failed = 3
status_place cancelled = 4
status_place review = 5
status_place approved = 6
status_place rejected = 7

abbrev pub status_eq : PaymentStatus → PaymentStatus → Bool
status_eq s t = status_place s == status_place t

-- Why a withdrawal is not approved by itself.
pub data FailedCheck : Type 0 where
  exceeds_limit young_account more_out_than_in too_many_recent manual_rail : FailedCheck

pub record Payment : Type 0 where
  pub id : ℕ
  pub user_id : ℕ
  pub direction : Direction
  pub provider : String
  pub our_ref : String
  pub amount : ℤ
  pub status : PaymentStatus
  pub method_id : Option ℕ
  pub provider_ref : Option String
  pub ledger_txn_id : Option ℕ
  pub failure_reason : Option String
  pub review_reason : List FailedCheck
  pub first_approved_by_admin_id : Option ℕ
  pub created_at : ℕ
  pub updated_at : ℕ

-- A row of `payment_methods`.
pub record Method : Type 0 where
  pub id : ℕ
  pub user_id : ℕ
  pub kind : String
  pub account_ref : String
  pub holder_name : String

-- The part of a row of `users` that withdrawals read.
pub record UserRow : Type 0 where
  pub id : ℕ
  pub kyc_level : ℕ
  pub created_at : ℕ
  pub is_simulated : Bool

-- `next_ref` is the next value of payment_ref_seq, and `payouts` the stream of Redis.
pub record PaymentsDb : Type 0 where
  pub users : List UserRow
  pub payments : List Payment
  pub methods : List Method
  pub ledger : L.Db
  pub year : ℕ
  pub next_ref : ℕ
  pub payouts : List (String × ℕ)

unfoldable pub find_user : ℕ → List UserRow → Option UserRow
find_user id [] = none
find_user id (u ∷ rest) = if u.id == id then some u else find_user id rest

-- `SELECT ... FROM payments WHERE id = $1`
unfoldable pub find_payment : ℕ → List Payment → Option Payment
find_payment id [] = none
find_payment id (p ∷ rest) = if p.id == id then some p else find_payment id rest

-- `SELECT ... FROM payments WHERE our_ref = $1`
unfoldable pub find_ref : String → List Payment → Option Payment
find_ref ref [] = none
find_ref ref (p ∷ rest) = if str_eq p.our_ref ref then some p else find_ref ref rest

-- The unique index on `our_ref`.
unfoldable pub has_ref : String → List Payment → Bool
has_ref ref [] = false
has_ref ref (p ∷ rest) = str_eq p.our_ref ref || has_ref ref rest

-- `UPDATE payments SET ... WHERE id = $1`
unfoldable pub update_payment : (Payment → Payment) → ℕ → List Payment → List Payment
update_payment f id [] = []
update_payment f id (p ∷ rest) = (if p.id == id then f p else p) ∷ update_payment f id rest

unfoldable pub find_method : ℕ → List Method → Option Method
find_method id [] = none
find_method id (m ∷ rest) = if m.id == id then some m else find_method id rest

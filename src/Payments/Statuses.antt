-- ===== src/Payments/Statuses.antt =====
-- Statuses with one place in PAYMENT_STATUSES are equal.
use igame.Common.{ℕ, ◌≡◌, refl, ap, sym, ◌∙◌, true, arith, ◌==◌, if◌then◌else◌}
use igame.Payments.{
  PaymentStatus, pending, processing, succeeded, failed, cancelled, review, approved, rejected,
  status_place, status_eq,
}

status_at : ℕ → PaymentStatus
status_at n =
    if n == 0
    then pending
    else if n == 1
    then processing
    else if n == 2
    then succeeded
    else if n == 3
    then failed
    else if n == 4
    then cancelled
    else if n == 5
    then review
    else if n == 6
    then approved
    else rejected

status_at_lem : (s : PaymentStatus) → status_at (status_place s) ≡ s
unfolding status_at
status_at_lem pending = refl
status_at_lem processing = refl
status_at_lem succeeded = refl
status_at_lem failed = refl
status_at_lem cancelled = refl
status_at_lem review = refl
status_at_lem approved = refl
status_at_lem rejected = refl

pub status_eq_sound : (s t : PaymentStatus) → status_eq s t ≡ true → s ≡ t
status_eq_sound s t h = sym (status_at_lem s) ∙ ap status_at (ground (arith, h)) ∙ status_at_lem t

-- ===== src/Payments/Vetting/Safe.antt =====
-- What the payments of a player must look like for a withdrawal to be approved by itself, in terms of their rows
-- (services/payments/withdrawals.py).
use igame.Common.{
  ℕ, ◌+◌, ◌*◌, ◌≤◌, ◌<◌, ◌≡◌, refl, ap, ◌∙◌, ◌⊎◌, Bool, true, false, ◌&&◌, ◌||◌, not, List, [], ◌∷◌,
  arith, ◌==◌, ltb, some, if◌then◌else◌, Bool-cases, inl, inr,
}
use igame.Common.Int.{ℤ, pos, ◌+ℤ◌, ◌≤ℤ◌, ltb_ℤ}
use igame.Common.Result.{ok}
use igame.Payments.{
  Direction, incoming, outgoing, is_out, PaymentStatus, pending, processing, succeeded, failed,
  cancelled, review, approved, rejected, status_eq, Payment, PaymentsDb, UserRow, find_user,
}
use igame.Payments.Withdrawals.{
  Policy, Ask, recent_deposit, lifetime, recent_withdrawals, request_withdrawal,
}
use igame.Payments.Vetting.{request_withdrawal-Vetted}

-- A payment is a row of the table.
abbrev IsRow : Payment → List Payment → Type 0
IsRow p [] = ⊥
IsRow p (x ∷ rest) = (x ≡ p) ⊎ IsRow p rest

abbrev pub total : (Payment → Bool) → List Payment → ℤ
total chosen [] = pos 0
total chosen (p ∷ rest) = if chosen p then p.amount +ℤ total chosen rest else total chosen rest

abbrev how_many : (Payment → Bool) → List Payment → ℕ
how_many chosen [] = 0
how_many chosen (p ∷ rest) = if chosen p then how_many chosen rest + 1 else how_many chosen rest

abbrev came_in : Direction → PaymentStatus → Bool
came_in incoming succeeded = true
came_in _ _ = false

abbrev went_out : Direction → PaymentStatus → Bool
went_out outgoing succeeded = true
went_out _ _ = false

abbrev asked_out : Direction → Bool
asked_out outgoing = true
asked_out incoming = false

-- What a withdrawal of the asked amount has passed, at the time of the request: the amount lies between the minimum
-- and the limit for automatic approval; no deposit of the player that came in can still be reversed; he has not
-- taken out more than came in; and in the last 24 hours he asked for fewer withdrawals than a day allows.
pub record IsSafe (policy : Policy) (ask : Ask) (db : PaymentsDb) (user : UserRow) : Type 0 where
  pub at_least : policy.min_withdraw ≤ℤ ask.amount
  pub at_most : ask.amount ≤ℤ policy.auto_approve_limit
  pub real : user.is_simulated ≡ false
  pub known : (ask.amount ≤ℤ policy.kyc_threshold) ⊎ (2 ≤ user.kyc_level)
  pub old_account : user.created_at + policy.min_account_age_hours * 3600 < db.ledger.now
  pub settled :
      (p : Payment)
      → IsRow p db.payments
      → p.user_id ≡ ask.user_id
      → p.direction ≡ incoming
      → p.status ≡ succeeded
      → p.created_at + policy.chargeback_window_minutes * 60 ≤ db.ledger.now
  pub paid_in :
      total (λ p. p.user_id == user.id && went_out p.direction p.status) db.payments
      ≤ℤ total (λ p. p.user_id == user.id && came_in p.direction p.status) db.payments
  pub rare :
      how_many
        (λ p.
          p.user_id == user.id
          && (asked_out p.direction && ltb db.ledger.now (p.created_at + 24 * 60 * 60)))
        db.payments
      < policy.max_withdrawals_per_day
  pub automatic : policy.force_review ≡ false

came_in_lem :
    (d : Direction) (s : PaymentStatus) → (not (is_out d) && status_eq s succeeded) ≡ came_in d s
came_in_lem outgoing s = refl
came_in_lem incoming pending = refl
came_in_lem incoming processing = refl
came_in_lem incoming succeeded = refl
came_in_lem incoming failed = refl
came_in_lem incoming cancelled = refl
came_in_lem incoming review = refl
came_in_lem incoming approved = refl
came_in_lem incoming rejected = refl

went_out_lem :
    (d : Direction) (s : PaymentStatus) → (is_out d && status_eq s succeeded) ≡ went_out d s
went_out_lem incoming s = refl
went_out_lem outgoing pending = refl
went_out_lem outgoing processing = refl
went_out_lem outgoing succeeded = refl
went_out_lem outgoing failed = refl
went_out_lem outgoing cancelled = refl
went_out_lem outgoing review = refl
went_out_lem outgoing approved = refl
went_out_lem outgoing rejected = refl

asked_out_lem : (d : Direction) → is_out d ≡ asked_out d
asked_out_lem incoming = refl
asked_out_lem outgoing = refl

lifetime-in :
    (u : ℕ) (ps : List Payment)
    → lifetime false u ps ≡ total (λ p. p.user_id == u && came_in p.direction p.status) ps
unfolding lifetime
lifetime-in u [] = refl
lifetime-in u (p ∷ ps) = elim (Bool-cases (p.user_id == u)) [
  | inl own ↦ rw (own, came_in_lem p.direction p.status, lifetime-in u ps) refl
  | inr other ↦ rw (other, lifetime-in u ps) refl
]

lifetime-out :
    (u : ℕ) (ps : List Payment)
    → lifetime true u ps ≡ total (λ p. p.user_id == u && went_out p.direction p.status) ps
unfolding lifetime
lifetime-out u [] = refl
lifetime-out u (p ∷ ps) = elim (Bool-cases (p.user_id == u)) [
  | inl own ↦ rw (own, went_out_lem p.direction p.status, lifetime-out u ps) refl
  | inr other ↦ rw (other, lifetime-out u ps) refl
]

recent_withdrawals_lem :
    (u now : ℕ) (ps : List Payment)
    → recent_withdrawals u now ps
      ≡ how_many
          (λ p. p.user_id == u && (asked_out p.direction && ltb now (p.created_at + 24 * 60 * 60)))
          ps
unfolding recent_withdrawals
recent_withdrawals_lem u now [] = refl
recent_withdrawals_lem u now (p ∷ ps) = elim (Bool-cases (p.user_id == u)) [
  | inl own ↦ rw (own, asked_out_lem p.direction, recent_withdrawals_lem u now ps) refl
  | inr other ↦ rw (other, recent_withdrawals_lem u now ps) refl
]

recent_deposit-none :
    (u now minutes : ℕ) (ps : List Payment)
    → recent_deposit u now minutes ps ≡ false
    → (p : Payment) → IsRow p ps
    → p.user_id ≡ u
    → p.direction ≡ incoming
    → p.status ≡ succeeded
    → p.created_at + minutes * 60 ≤ now
unfolding recent_deposit
recent_deposit-none u now minutes [] h p m own d s = absurd m
recent_deposit-none u now minutes (x ∷ rest) h p m own d s =
    let (here, later) = neither _ (recent_deposit u now minutes rest) h in
    elim m [
      | inr row ↦ recent_deposit-none u now minutes rest later p row own d s
      | inl same ↦
          let own_row : x.user_id == u ≡ true =
            ground (arith, ap (λ (q : Payment). q.user_id) same ∙ own) in
          let inward : is_out x.direction ≡ false =
            ap (λ (q : Payment). is_out q.direction) same ∙ ap is_out d in
          let done : status_eq x.status succeeded ≡ true =
            ap (λ (q : Payment). status_eq q.status succeeded) same
            ∙ ap (λ (t : PaymentStatus). status_eq t succeeded) s in
          let old : ltb now (x.created_at + minutes * 60) ≡ false =
            rw (own_row, inward, done) at here in
          ground (arith, old, ap (λ (q : Payment). q.created_at) same)
    ]
  where
    neither : (a b : Bool) → (a || b) ≡ false → (a ≡ false) × (b ≡ false)
    neither false b h = (refl, h)
    neither true b h = cc h

not_less : (a b : ℤ) → ltb_ℤ a b ≡ false → b ≤ℤ a
not_less a b h = ground (arith, h)

-- A request of a known player whose payment is approved at once has passed every test, told in terms of the rows of
-- payments: the amount is between the minimum and the limit for automatic approval, the player is real, his account is
-- old enough, he is known where the amount asks for it, none of his deposits that came in can still be reversed, he
-- has not taken out more than came in, and in the last 24 hours he asked for fewer withdrawals than a day allows.
pub request_withdrawal-IsSafe :
    (policy : Policy) (ask : Ask) (db : PaymentsDb) (user : UserRow) {p : Payment}
    {db' : PaymentsDb}
    → find_user ask.user_id db.users ≡ some user
    → request_withdrawal policy ask db ≡ ok (p, db')
    → p.status ≡ approved
    → IsSafe policy ask db user
request_withdrawal-IsSafe policy ask db user f h e =
    let v = request_withdrawal-Vetted policy ask db user f h e in
    let paid : lifetime true user.id db.payments ≤ℤ lifetime false user.id db.payments =
      not_less (lifetime false user.id db.payments) (lifetime true user.id db.payments) v.paid_in in
    record {
      at_least = not_less ask.amount policy.min_withdraw v.enough;
      at_most = not_less policy.auto_approve_limit ask.amount v.within_limit;
      real = v.real;
      known = is_known v.known;
      old_account = ground (arith, v.old_account);
      settled =
          recent_deposit-none ask.user_id db.ledger.now policy.chargeback_window_minutes db.payments
            v.settled;
      paid_in = rw (lifetime-out user.id db.payments, lifetime-in user.id db.payments) at paid;
      rare =
          ground (arith, rw (recent_withdrawals_lem user.id db.ledger.now db.payments) at v.rare);
      automatic = v.automatic;
    }
  where
    is_known :
        (ltb_ℤ policy.kyc_threshold ask.amount && ltb user.kyc_level 2) ≡ false
        → (ask.amount ≤ℤ policy.kyc_threshold) ⊎ (2 ≤ user.kyc_level)
    is_known c = elim (Bool-cases (ltb_ℤ policy.kyc_threshold ask.amount)) [
      | inr small ↦ inl (not_less policy.kyc_threshold ask.amount small)
      | inl large ↦ inr (ground (arith, rw large at c))
    ]

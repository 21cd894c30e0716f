-- ===== src/Round/Funds.antt =====
-- A round ends once: a refund and a settlement exclude each other (services/engine/refunds.py and
-- services/engine/round_engine.py).
use mathlib.Core.Path.{subst}
use igame.Common.{
  ℕ, ◌≡◌, refl, ap, sym, ◌∙◌, Bool, true, false, Option, none, some, String, List, [], ◌∷◌, arith,
  ◌==◌, Bool-cases, inl, inr,
}
use igame.Common.Int.{ℤ}
use igame.Common.Result.{ok, >>=-eq-ok, ok-injective}
use igame.Ledger.Post.{PostError, commit_post}
use igame.Round.{Status, done, voided, PendingWinner}
use igame.Round.Join.{RoundRow, Tables, update_round}
use igame.Round.Settle.{
  is_terminal, find_round, set_round_status, entrants, refund_entrants, refund_open, refund_round,
  pay_winners, settle_transaction,
}

-- The round is missing or over.
abbrev pub is_over : Option RoundRow → Bool
is_over none = true
is_over (some r) = is_terminal r.status

find_round-update :
    (s : Status) (id : ℕ) (rows : List RoundRow)
    → is_terminal s ≡ true
    → is_over (find_round id (update_round (set_round_status s) id rows)) ≡ true
unfolding find_round update_round
find_round-update s id [] h = refl
find_round-update s id (r ∷ rows) h = elim (Bool-cases (r.id == id)) [
  | inl e ↦ rw (e, e) h
  | inr e ↦ rw (e, e) (find_round-update s id rows h)
]

settle-over :
    (id : ℕ) (pot : ℤ) (winners : List PendingWinner) (shares : List ℤ) (house : ℤ) (t : Tables)
    → is_over (find_round id t.rounds) ≡ true
    → settle_transaction id pot winners shares house t ≡ ok (false, t)
unfolding settle_transaction
settle-over id pot winners shares house t h = ground arith

refund-over :
    (t : Tables) (id : ℕ) (reason : String)
    → is_over (find_round id t.rounds) ≡ true
    → refund_round t id reason ≡ ok (0, t)
unfolding refund_round
refund-over t id reason h = ground arith

is_over-open :
    (o : Option RoundRow)
    → is_over o ≡ false
    → (row : RoundRow) × (o ≡ some row) × (is_terminal row.status ≡ false)
is_over-open none h = cc
is_over-open (some row) h = (row, refl, h)

-- What a refund that found the round open leaves.
refund_open-over :
    (t : Tables) (id : ℕ) (reason : String) (n : ℕ) (row : RoundRow) (t' : Tables)
    → refund_open id reason row t ≡ ok (n, t')
    → is_over (find_round id t'.rounds) ≡ true
unfolding refund_open
refund_open-over t id reason n row t' e =
    let (refunded, loop, last) =
      >>=-eq-ok (refund_entrants id reason _ row.stake (entrants id t.round_entries) _) _ e in
    subst (λ (rows : List RoundRow). is_over (find_round id rows) ≡ true)
      (ap (λ (x : ℕ × Tables). x.1.rounds) (ok-injective last))
      (find_round-update voided id t.rounds refl)

pub refund_round-over :
    (t : Tables) (id : ℕ) (reason : String) (n : ℕ) (t' : Tables)
    → refund_round t id reason ≡ ok (n, t')
    → is_over (find_round id t'.rounds) ≡ true
unfolding refund_round
refund_round-over t id reason n t' e = elim (Bool-cases (is_over (find_round id t.rounds))) [
  | inl over ↦
      subst (λ (x : Tables). is_over (find_round id x.rounds) ≡ true)
        (ap (λ (x : ℕ × Tables). x.1)
          (ok-injective {E = PostError} (sym (refund-over t id reason over) ∙ e)))
        over
  | inr open_still ↦
      let (row, found, going) = is_over-open (find_round id t.rounds) open_still in
      let opened : refund_open id reason row t ≡ ok (n, t') = ground arith in
      refund_open-over t id reason n row t' opened
]

find_round-other :
    (s : Status) (id k : ℕ) (rows : List RoundRow)
    → (id == k) ≡ false
    → find_round k (update_round (set_round_status s) id rows) ≡ find_round k rows
unfolding find_round update_round
find_round-other s id k [] h = refl
find_round-other s id k (r ∷ rows) h = elim (Bool-cases (r.id == id)) [
  | inl e ↦
      let other : (r.id == k) ≡ false = ground (arith, e, h) in
      rw (e, other) (find_round-other s id k rows h)
  | inr e ↦ elim (Bool-cases (r.id == k)) [
    | inl own ↦ rw (e, own) refl
    | inr other ↦ rw (e, other) (find_round-other s id k rows h)
  ]
]

-- A refund touches the row of its own round only.
pub refund_round-keeps :
    (t : Tables) (id : ℕ) (reason : String) (n : ℕ) (t' : Tables) (k : ℕ)
    → (id == k) ≡ false
    → refund_round t id reason ≡ ok (n, t')
    → find_round k t'.rounds ≡ find_round k t.rounds
unfolding refund_round refund_open
refund_round-keeps t id reason n t' k h e = elim (Bool-cases (is_over (find_round id t.rounds))) [
  | inl over ↦
      ap (λ (x : ℕ × Tables). find_round k x.1.rounds)
        (ok-injective {E = PostError} (sym e ∙ refund-over t id reason over))
  | inr open_still ↦
      let (row, found, going) = is_over-open (find_round id t.rounds) open_still in
      let opened : refund_open id reason row t ≡ ok (n, t') = ground arith in
      let (refunded, loop, last) =
        >>=-eq-ok (refund_entrants id reason _ row.stake (entrants id t.round_entries) _) _
          opened in
      sym (ap (λ (x : ℕ × Tables). find_round k x.1.rounds) (ok-injective {E = PostError} last))
      ∙ find_round-other voided id k t.rounds h
]

pay_winners-over :
    (id : ℕ) (pot : ℤ) (winners : List PendingWinner) (shares : List ℤ) (house : ℤ) (t : Tables)
    (paid : Bool) (t' : Tables)
    → pay_winners id pot winners shares house t ≡ ok (paid, t')
    → is_over (find_round id t'.rounds) ≡ true
unfolding pay_winners
pay_winners-over id pot winners shares house t paid t' e =
    let (posted, post_ok, last) = >>=-eq-ok (commit_post _ _) _ e in
    subst (λ (rows : List RoundRow). is_over (find_round id rows) ≡ true)
      (ap (λ (x : Bool × Tables). x.1.rounds) (ok-injective last))
      (find_round-update done id t.rounds refl)

settle-ends :
    (id : ℕ) (pot : ℤ) (winners : List PendingWinner) (shares : List ℤ) (house : ℤ) (t : Tables)
    (paid : Bool) (t' : Tables)
    → settle_transaction id pot winners shares house t ≡ ok (paid, t')
    → is_over (find_round id t'.rounds) ≡ true
unfolding settle_transaction
settle-ends id pot winners shares house t paid t' e =
    elim (Bool-cases (is_over (find_round id t.rounds))) [
      | inl over ↦
          subst (λ (x : Tables). is_over (find_round id x.rounds) ≡ true)
            (ap (λ (x : Bool × Tables). x.1)
              (ok-injective {E = PostError}
                (sym (settle-over id pot winners shares house t over) ∙ e)))
            over
      | inr open_still ↦
          let (row, found, going) = is_over-open (find_round id t.rounds) open_still in
          let opened : pay_winners id pot winners shares house t ≡ ok (paid, t') = ground arith in
          pay_winners-over id pot winners shares house t paid t' opened
    ]

-- After a refund, whether it paid back or found the round over, a settlement pays nobody and changes
-- nothing.
pub refund-then-settle :
    (t : Tables) (id : ℕ) (reason : String) (n : ℕ) {t' : Tables} (pot : ℤ)
    (winners : List PendingWinner) (shares : List ℤ) (house : ℤ)
    → refund_round t id reason ≡ ok (n, t')
    → settle_transaction id pot winners shares house t' ≡ ok (false, t')
refund-then-settle t id reason n {t'} pot winners shares house e =
    settle-over id pot winners shares house t' (refund_round-over t id reason n t' e)

-- After a settlement, whether it paid or found the round over, a refund pays nothing back and changes
-- nothing.
pub settle-then-refund :
    (t : Tables) (id : ℕ) (reason : String) {paid : Bool} {t' : Tables} (pot : ℤ)
    (winners : List PendingWinner) (shares : List ℤ) (house : ℤ)
    → settle_transaction id pot winners shares house t ≡ ok (paid, t')
    → refund_round t' id reason ≡ ok (0, t')
settle-then-refund t id reason {paid} {t'} pot winners shares house e =
    refund-over t' id reason (settle-ends id pot winners shares house t paid t' e)

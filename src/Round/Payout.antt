-- ===== src/Round/Payout.antt =====
-- The entries of a settlement add up to zero (services/engine/round_engine.py).
use igame.Common.{
  ℕ, suc, length-replicate, ◌/◌, ◌≤◌, ◌<◌, ◌≡◌, refl, ap, sym, ◌∙◌, some, List, [], ◌∷◌, ◌++◌,
  length, arith, replicate,
}
use igame.Common.Int.{ℤ, pos, ◌+ℤ◌, int_laws}
use igame.Common.Result.{ok}
use igame.Settlement.{compute_derash, split_derash}
use igame.Settlement.Shares.{sum, part, compute_derash_lem, split_derash_lem, settlement_conserves}
use igame.Ledger.{Entry, get_or_create_account}
use igame.Ledger.Post.Balanced.{sum_amounts}
use igame.Ledger as L
use igame.Round.{PendingWinner}
use igame.Round.Settle.{winner_accounts, share_entries, payout_entries}

length-accounts :
    (winners : List PendingWinner) (ledger : L.Db)
    → length (winner_accounts winners ledger).0 ≡ length winners
unfolding winner_accounts
length-accounts [] ledger = refl
length-accounts (w ∷ ws) ledger =
    ap suc (length-accounts ws (get_or_create_account ledger (some w.user_id) "user_cash" "ETB").1)

sum_amounts-shares :
    (accounts : List ℕ) (shares : List ℤ) (last : Entry)
    → length accounts ≡ length shares
    → sum_amounts (share_entries accounts shares ++ last ∷ []) ≡ sum shares +ℤ last.amount
unfolding share_entries sum_amounts
sum_amounts-shares [] [] last h = grind int_laws
sum_amounts-shares [] (s ∷ shares) last h = absurd (omega (arith, h))
sum_amounts-shares (a ∷ accounts) [] last h = absurd (omega (arith, h))
sum_amounts-shares (a ∷ accounts) (s ∷ shares) last h =
    grind (int_laws, sum_amounts-shares accounts shares last (omega (arith, h)))

length-shares :
    (pot bps k : ℕ) {d h : ℤ} {shares : List ℤ} {left : ℤ}
    → bps ≤ 10000
    → 0 < k
    → compute_derash (pos pot) (pos bps) ≡ ok (d, h)
    → split_derash d (pos k) ≡ ok (shares, left)
    → length shares ≡ k
length-shares pot bps k {d} {h} {shares} {left} legal some_winner e f =
    let p : ℕ = part pot bps in
    let ed : d ≡ pos p = cc (compute_derash_lem pot bps legal) in
    let es : shares ≡ replicate k (pos (p / k)) = cc (ed, split_derash_lem p k some_winner) in
    ap length es ∙ length-replicate k (pos (p / k))

-- For a pot that is not negative, a legal cut and one winner at least, the entries of a settlement add
-- up to zero: what leaves the pot is what the winners and the house get.
pub payout-balances :
    (pot bps : ℕ) (winners : List PendingWinner) (ledger : L.Db) (pot_account house_account : ℕ)
    {derash house_cut : ℤ} {shares : List ℤ} {leftover : ℤ}
    → bps ≤ 10000
    → 0 < length winners
    → compute_derash (pos pot) (pos bps) ≡ ok (derash, house_cut)
    → split_derash derash (pos (length winners)) ≡ ok (shares, leftover)
    → sum_amounts (
        payout_entries pot_account
          (pos pot)
          (winner_accounts winners ledger).0
          shares
          house_account
          (house_cut +ℤ leftover))
      ≡ pos 0
unfolding payout_entries sum_amounts
payout-balances pot bps winners ledger pot_account house_account {derash} {house_cut} {shares}
      {leftover} legal some_winner e f =
    let accounts : List ℕ = (winner_accounts winners ledger).0 in
    let last : Entry = record { account_id = house_account; amount = house_cut +ℤ leftover } in
    let fits : length accounts ≡ length shares =
      length-accounts winners ledger
      ∙ sym (length-shares pot bps (length winners) legal some_winner e f) in
    grind (
      int_laws,
      sum_amounts-shares accounts shares last fits,
      settlement_conserves pot bps (length winners) legal some_winner e f,
    )

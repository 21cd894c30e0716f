-- ===== src/Ledger/Post/Reconciles.antt =====
-- After a post every cached balance is still the sum of the entries of its account.
use mathlib.Core.Path.{subst}
use igame.Common.{ℕ, ◌≡◌, refl, ap, sym, ◌∙◌, Option, none, some, Bool-cases, inl, inr, length}
use igame.Common.Int.{ℤ, pos, ◌+ℤ◌, int_laws}
use igame.Common.Counts.{contains}
use igame.Common.Result.{ok}
use igame.Ledger.Base.{
  LockedBalance, Balances, Db, find_balance, balance, balance_or_zero, entry_sum,
}
use igame.Ledger.Deltas.{deltas_of}
use igame.Ledger.Balances.{
  Moved, Moved-apply, Locked, Locked-lock, lock_balances-row, delta_sum-deltas_of, amounts,
  amounts-none, entry_sum-rows,
}
use igame.Ledger.Post.State.{post_state}
use igame.Ledger.Post.{Request, sorted_ids, lock_balances, new_transaction, stamp}

-- Every cached balance is the sum of the entries of its account.
abbrev pub IsReconciled : Db → Type 0
IsReconciled db = (a : ℕ) → balance db a ≡ entry_sum a db.entries

settle_balance :
    (o l n : Option LockedBalance) (d s : ℤ)
    → Locked o l
    → Moved l n d
    → (l ≡ none → d ≡ pos 0)
    → balance_or_zero o ≡ s
    → balance_or_zero n ≡ s +ℤ d
settle_balance (some r) none n d s h m z e = cc
settle_balance (some r) (some l) none d s h m z e = absurd m
settle_balance (some r) (some l) (some n) d s h m z e =
    let same : l.balance ≡ r.balance = ap balance_or_zero h in grind (int_laws, m.1, same, e)
settle_balance none none none d s h m z e = grind (int_laws, z refl, e)
settle_balance none none (some n) d s h m z e = absurd m
settle_balance none (some l) none d s h m z e = absurd m
settle_balance none (some l) (some n) d s h m z e = grind (int_laws, m.1, h, e)

pub post_state-IsReconciled :
    (db : Db) (q : Request) (locked : Balances)
    → lock_balances db.accounts (sorted_ids q.entries) db.balances ≡ ok locked
    → IsReconciled db
    → IsReconciled (post_state db q locked)
unfolding balance
post_state-IsReconciled db q locked e h a =
    settle_balance (find_balance a db.balances) (find_balance a locked)
      (find_balance a (post_state db q locked).balances) (amounts a q.entries)
      (entry_sum a db.entries)
      (Locked-lock db.accounts a (sorted_ids q.entries) db.balances locked e)
      (subst (Moved (find_balance a locked) (find_balance a (post_state db q locked).balances))
        (delta_sum-deltas_of a q.entries)
        (Moved-apply (length (post_state db q locked).entries) a (deltas_of q.entries) locked))
      untouched (h a)
    ∙ sym (
        entry_sum-rows a (new_transaction db q).id (stamp q.created_at db.now) db.entries q.entries)
  where
    untouched : find_balance a locked ≡ none → amounts a q.entries ≡ pos 0
    untouched n = elim (Bool-cases (contains a (sorted_ids q.entries))) [
      | inl m ↦
          absurd (lock_balances-row db.accounts a (sorted_ids q.entries) db.balances locked e m n)
      | inr m ↦ amounts-none a q.entries m
    ]

-- ===== src/Ledger/Deltas.antt =====
-- The changes of a post, account by account, and their effect on the balance rows.
use igame.Common.{ℕ, some, List, [], ◌∷◌, ◌==◌, if◌then◌else◌}
use igame.Common.Int.{ℤ, pos, ◌+ℤ◌}
use igame.Ledger.Base.{Entry, Balances}

abbrev pub Deltas : Type 0
Deltas = List (ℕ × ℤ)

-- `deltas[id] = deltas.get(id, Decimal("0")) + amount`
unfoldable pub add_delta : ℕ → ℤ → Deltas → Deltas
add_delta id amount [] = (id, pos 0 +ℤ amount) ∷ []
add_delta id amount ((k, d) ∷ rest) =
    if k == id then (k, d +ℤ amount) ∷ rest else (k, d) ∷ add_delta id amount rest

unfoldable pub add_entries : Deltas → List Entry → Deltas
add_entries deltas [] = deltas
add_entries deltas (e ∷ es) = add_entries (add_delta e.account_id e.amount deltas) es

unfoldable pub deltas_of : List Entry → Deltas
unfolding add_entries
deltas_of entries = add_entries [] entries

-- `UPDATE account_balances SET balance = balance + $2, last_entry_id = $3 WHERE account_id = $1`
unfoldable pub update_balance : ℕ → ℕ → ℤ → Balances → Balances
update_balance last id delta [] = []
update_balance last id delta ((k, row) ∷ rest) =
    (
      k,
      if k == id
          then record row { balance = row.balance +ℤ delta; last_entry_id = some last }
          else row,
    )
    ∷ update_balance last id delta rest

unfoldable pub apply_deltas : ℕ → Deltas → Balances → Balances
apply_deltas last [] balances = balances
apply_deltas last ((id, delta) ∷ rest) balances =
    apply_deltas last rest (update_balance last id delta balances)

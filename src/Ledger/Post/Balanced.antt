-- ===== src/Ledger/Post/Balanced.antt =====
-- After a committed post the entries of every transaction add up to zero.
use mathlib.Core.Path.{subst}
use igame.Common.{ℕ, ◌+◌, ◌≡◌, refl, true, false, List, [], ◌∷◌, ◌++◌, arith, ◌==◌, length, drop}
use igame.Common.Int.{ℤ, pos, ◌+ℤ◌, int_laws}
use igame.Common.Result.{ok}
use igame.Ledger.Base.{Entry, EntryRow, Balances, Db, eq_ℤ}
use igame.Ledger.Balances.{if_ℤ}
use igame.Ledger.Post.State.{post_state}
use igame.Ledger.Post.{Request, entry_rows, stamp, has_none, transaction_total, check_totals}

-- The entries of each transaction add up to zero.
abbrev pub IsBalanced : Db → Type 0
IsBalanced db = (t : ℕ) → transaction_total t db.entries ≡ pos 0

-- All the entries of the ledger.
unfoldable pub total_amount : List EntryRow → ℤ
total_amount [] = pos 0
total_amount (e ∷ es) = e.amount +ℤ total_amount es

unfoldable pub sum_amounts : List Entry → ℤ
sum_amounts [] = pos 0
sum_amounts (e ∷ es) = e.amount +ℤ sum_amounts es

pub transaction_total-append :
    (t : ℕ) (xs ys : List EntryRow)
    → transaction_total t (xs ++ ys) ≡ transaction_total t xs +ℤ transaction_total t ys
unfolding transaction_total
transaction_total-append t [] ys = grind int_laws
transaction_total-append t (x ∷ xs) ys = grind (int_laws, transaction_total-append t xs ys)

total_amount-append :
    (xs ys : List EntryRow) → total_amount (xs ++ ys) ≡ total_amount xs +ℤ total_amount ys
unfolding total_amount
total_amount-append [] ys = grind int_laws
total_amount-append (x ∷ xs) ys = grind (int_laws, total_amount-append xs ys)

pub transaction_total-rows :
    (t txn at : ℕ) (es : List Entry)
    → transaction_total t (entry_rows txn at es) ≡ if_ℤ (txn == t) (sum_amounts es)
unfolding transaction_total entry_rows if_ℤ sum_amounts
transaction_total-rows t txn at [] = grind int_laws
transaction_total-rows t txn at (e ∷ es) = grind (int_laws, transaction_total-rows t txn at es)

total_amount-rows :
    (txn at : ℕ) (es : List Entry) → total_amount (entry_rows txn at es) ≡ sum_amounts es
unfolding total_amount entry_rows sum_amounts
total_amount-rows txn at [] = refl
total_amount-rows txn at (e ∷ es) = rw (total_amount-rows txn at es) refl

pub drop-append {ℓ} : {A : Type ℓ} (xs ys : List A) → drop (length xs) (xs ++ ys) ≡ ys
drop-append [] ys = refl
drop-append (x ∷ xs) ys = drop-append xs ys

eq_ℤ→≡ : (a b : ℤ) → eq_ℤ a b ≡ true → a ≡ b
eq_ℤ→≡ a b h = ground arith

check_totals-new :
    (all : List EntryRow) (txn at : ℕ) (es : List Entry)
    → has_none es ≡ false
    → check_totals all (entry_rows txn at es) ≡ ok tt
    → transaction_total txn all ≡ pos 0
unfolding check_totals entry_rows
check_totals-new all txn at [] h c = cc
check_totals-new all txn at (e ∷ es) h c = eq_ℤ→≡ (transaction_total txn all) (pos 0) (ground arith)

pub post_state-IsBalanced :
    (db : Db) (q : Request) (locked : Balances)
    → has_none q.entries ≡ false
    → check_totals
        (post_state db q locked).entries
        (drop (length db.entries) (post_state db q locked).entries)
      ≡ ok tt
    → IsBalanced db
    → IsBalanced (post_state db q locked)
      × (total_amount (post_state db q locked).entries ≡ total_amount db.entries)
unfolding if_ℤ
post_state-IsBalanced db q locked some_entry c h =
    let txn : ℕ = length db.transactions + 1 in
    let rows : List EntryRow = entry_rows txn (stamp q.created_at db.now) q.entries in
    let fresh : check_totals (db.entries ++ rows) rows ≡ ok tt =
      subst (λ (new : List EntryRow). check_totals (db.entries ++ rows) new ≡ ok tt)
        (drop-append db.entries rows) c in
    let zero_new : transaction_total txn (db.entries ++ rows) ≡ pos 0 =
      check_totals-new (db.entries ++ rows) txn (stamp q.created_at db.now) q.entries some_entry
        fresh in
    let nothing : sum_amounts q.entries ≡ pos 0 = grind (
      int_laws,
      zero_new,
      transaction_total-append txn db.entries rows,
      transaction_total-rows txn txn (stamp q.created_at db.now) q.entries,
      h txn,
    ) in
    (
      λ t. grind (
        int_laws,
        nothing,
        transaction_total-append t db.entries rows,
        transaction_total-rows t txn (stamp q.created_at db.now) q.entries,
        h t,
      ),
      grind (
        int_laws,
        nothing,
        total_amount-append db.entries rows,
        total_amount-rows txn (stamp q.created_at db.now) q.entries,
      ),
    )

-- ===== src/Ledger/Balances.antt =====
-- What locking and updating do to the balance row of each account.
use igame.Common.{
  ℕ, ◌≡◌, refl, ◌∙◌, Bool, true, false, ◌||◌, Option, none, some, String, List, [], ◌∷◌, ◌++◌,
  arith, ◌==◌, Bool-cases, Option-cases, inl, inr, ◌≢◌, ap, ==_iff,
}
use mathlib.Core.Path.{subst}
use mathlib.Core.Bool.{false≢true}
use igame.Common.Int.{ℤ, pos, ◌+ℤ◌, int_laws}
use igame.Common.Counts.{contains}
use igame.Common.Result.{ok, >>=-eq-ok}
use igame.Ledger.Base.{Account, Entry, EntryRow, LockedBalance, Balances, find_balance, entry_sum}
use igame.Ledger.Deltas.{Deltas, add_delta, add_entries, deltas_of, update_balance, apply_deltas}
use igame.Ledger.Post.{
  insert_id, sorted_ids, account_kind, fresh_row, lock_one, lock_balances, entry_rows,
}

unfoldable pub if_ℤ : Bool → ℤ → ℤ
if_ℤ true d = d
if_ℤ false d = pos 0

-- The same row, with `d` more on it.
abbrev pub Moved : Option LockedBalance → Option LockedBalance → ℤ → Type 0
Moved none none d = Unit
Moved (some r) (some r') d = (r'.kind ≡ r.kind) × (r'.balance ≡ r.balance +ℤ d)
Moved _ _ d = ⊥

Moved-same : (o : Option LockedBalance) → Moved o o (pos 0)
Moved-same none = tt
Moved-same (some r) = (refl, omega int_laws)

Moved-trans :
    (o p q : Option LockedBalance) (d e : ℤ) → Moved o p d → Moved p q e → Moved o q (d +ℤ e)
Moved-trans none none none d e h k = tt
Moved-trans (some r) (some s) (some t) d e h k = (k.0 ∙ h.0, grind (int_laws, h.1, k.1))
Moved-trans none none (some _) d e h k = absurd k
Moved-trans none (some _) q d e h k = absurd h
Moved-trans (some _) none q d e h k = absurd h
Moved-trans (some _) (some _) none d e h k = absurd k

pub Moved-update :
    (last id a : ℕ) (d : ℤ) (bs : Balances)
    → Moved (find_balance a bs) (find_balance a (update_balance last id d bs)) (if_ℤ (id == a) d)
unfolding find_balance update_balance if_ℤ
Moved-update last id a d [] = tt
Moved-update last id a d ((k, row) ∷ rest) = elim (Bool-cases (k == a)) [
  | inl e ↦ rw e (grind int_laws)
  | inr e ↦ rw e (Moved-update last id a d rest)
]

-- All that a list of deltas adds to an account.
unfoldable pub delta_sum : ℕ → Deltas → ℤ
delta_sum a [] = pos 0
delta_sum a ((k, d) ∷ rest) = if_ℤ (k == a) d +ℤ delta_sum a rest

pub Moved-apply :
    (last a : ℕ) (ds : Deltas) (bs : Balances)
    → Moved (find_balance a bs) (find_balance a (apply_deltas last ds bs)) (delta_sum a ds)
unfolding apply_deltas delta_sum
Moved-apply last a [] bs = Moved-same (find_balance a bs)
Moved-apply last a ((k, d) ∷ rest) bs =
    Moved-trans (find_balance a bs) (find_balance a (update_balance last k d bs))
      (find_balance a (apply_deltas last rest (update_balance last k d bs))) (if_ℤ (k == a) d)
      (delta_sum a rest) (Moved-update last k a d bs)
      (Moved-apply last a rest (update_balance last k d bs))

-- All that the entries add to an account.
unfoldable pub amounts : ℕ → List Entry → ℤ
amounts a [] = pos 0
amounts a (e ∷ es) = if_ℤ (e.account_id == a) e.amount +ℤ amounts a es

delta_sum-add :
    (a id : ℕ) (x : ℤ) (ds : Deltas)
    → delta_sum a (add_delta id x ds) ≡ delta_sum a ds +ℤ if_ℤ (id == a) x
unfolding delta_sum add_delta if_ℤ
delta_sum-add a id x [] = grind int_laws
delta_sum-add a id x ((k, d) ∷ rest) = grind (int_laws, delta_sum-add a id x rest)

delta_sum-entries :
    (a : ℕ) (ds : Deltas) (es : List Entry)
    → delta_sum a (add_entries ds es) ≡ delta_sum a ds +ℤ amounts a es
unfolding add_entries amounts
delta_sum-entries a ds [] = omega int_laws
delta_sum-entries a ds (e ∷ es) = grind (
  int_laws,
  delta_sum-entries a (add_delta e.account_id e.amount ds) es,
  delta_sum-add a e.account_id e.amount ds,
)

-- The deltas of a post add to each account what its entries add.
pub delta_sum-deltas_of : (a : ℕ) (es : List Entry) → delta_sum a (deltas_of es) ≡ amounts a es
unfolding deltas_of delta_sum
delta_sum-deltas_of a es = grind (int_laws, delta_sum-entries a [] es)

pub entry_sum-rows :
    (a txn at : ℕ) (old : List EntryRow) (es : List Entry)
    → entry_sum a (old ++ entry_rows txn at es) ≡ entry_sum a old +ℤ amounts a es
unfolding entry_sum entry_rows amounts if_ℤ
entry_sum-rows a txn at [] [] = omega int_laws
entry_sum-rows a txn at [] (e ∷ es) = grind (int_laws, entry_sum-rows a txn at [] es)
entry_sum-rows a txn at (o ∷ old) es = grind (int_laws, entry_sum-rows a txn at old es)

-- A missing row may have been created at zero; any other row is as it was.
abbrev pub Locked : Option LockedBalance → Option LockedBalance → Type 0
Locked (some r) o = o ≡ some r
Locked none none = Unit
Locked none (some r) = r.balance ≡ pos 0

Locked-trans : (o p q : Option LockedBalance) → Locked o p → Locked p q → Locked o q
Locked-trans (some r) p q h k = subst (λ o. Locked o q) h k
Locked-trans none none q h k = k
Locked-trans none (some r) q h k = rw k h

Locked-append :
    (a id : ℕ) (kind : String) (bs : Balances)
    → find_balance id bs ≡ none
    → Locked (find_balance a bs) (find_balance a (bs ++ (id, fresh_row kind) ∷ []))
unfolding find_balance
Locked-append a id kind [] h = ground arith
Locked-append a id kind ((k, row) ∷ rest) h = ground (arith, Locked-append a id kind rest)

Locked-same : (o : Option LockedBalance) → Locked o o
Locked-same none = tt
Locked-same (some r) = refl

Locked-one :
    (accounts : List Account) (a id : ℕ) (bs bs' : Balances)
    → lock_one accounts id bs ≡ ok bs'
    → Locked (find_balance a bs) (find_balance a bs')
unfolding lock_one
Locked-one accounts a id bs bs' h = elim (Option-cases (find_balance id bs)) [
  | inr (r, e) ↦
      let same : bs ≡ bs' = ground arith in
      subst (λ b. Locked (find_balance a bs) (find_balance a b)) same
        (Locked-same (find_balance a bs))
  | inl e ↦ elim (Option-cases (account_kind id accounts)) [
    | inl n ↦ absurd (ground arith)
    | inr (kind, k) ↦
        let same : bs ++ (id, fresh_row kind) ∷ [] ≡ bs' = ground arith in
        subst (λ b. Locked (find_balance a bs) (find_balance a b)) same
          (Locked-append a id kind bs e)
  ]
]

-- Locking leaves every row that was there as it was, and creates others at zero.
pub Locked-lock :
    (accounts : List Account) (a : ℕ) (ids : List ℕ) (bs bs' : Balances)
    → lock_balances accounts ids bs ≡ ok bs'
    → Locked (find_balance a bs) (find_balance a bs')
unfolding lock_balances
Locked-lock accounts a [] bs bs' h =
    subst (λ b. Locked (find_balance a bs) (find_balance a b)) (cc)
      (Locked-same (find_balance a bs))
Locked-lock accounts a (id ∷ ids) bs bs' h =
    let (b, one, rest) = >>=-eq-ok (lock_one accounts id bs) (lock_balances accounts ids) h in
    Locked-trans (find_balance a bs) (find_balance a b) (find_balance a bs')
      (Locked-one accounts a id bs b one) (Locked-lock accounts a ids b bs' rest)

abbrev pub has_row : ℕ → Balances → Bool
has_row a bs = elim (find_balance a bs) [ none ↦ false | some _ ↦ true ]

has_row-Locked : (o p : Option LockedBalance) → Locked o p → p ≡ none → o ≡ none
has_row-Locked none p h e = refl
has_row-Locked (some r) p h e = cc

find-append :
    (id : ℕ) (kind : String) (bs : Balances)
    → find_balance id (bs ++ (id, fresh_row kind) ∷ []) ≢ none
unfolding find_balance
find-append id kind [] = ground arith
find-append id kind ((k, row) ∷ rest) = ground (arith, find-append id kind rest)

lock_one-row :
    (accounts : List Account) (id : ℕ) (bs bs' : Balances)
    → lock_one accounts id bs ≡ ok bs'
    → find_balance id bs' ≢ none
unfolding lock_one
lock_one-row accounts id bs bs' h n = elim (Option-cases (find_balance id bs)) [
  | inr (r, e) ↦ let same : bs ≡ bs' = ground arith in absurd (ground arith)
  | inl e ↦ elim (Option-cases (account_kind id accounts)) [
    | inl k ↦ absurd (ground arith)
    | inr (kind, k) ↦
        let same : bs ++ (id, fresh_row kind) ∷ [] ≡ bs' = ground arith in
        find-append id kind bs (ap (find_balance id) same ∙ n)
  ]
]

-- Every account that was to be locked has a row afterwards.
pub lock_balances-row :
    (accounts : List Account) (a : ℕ) (ids : List ℕ) (bs bs' : Balances)
    → lock_balances accounts ids bs ≡ ok bs'
    → contains a ids ≡ true
    → find_balance a bs' ≢ none
unfolding lock_balances
lock_balances-row accounts a [] bs bs' h m = absurd (false≢true m)
lock_balances-row accounts a (id ∷ ids) bs bs' h m =
    let (b, one, rest) = >>=-eq-ok (lock_one accounts id bs) (lock_balances accounts ids) h in
    elim (Bool-cases (id == a)) [
      | inl e ↦
          let same : id ≡ a = (==_iff id a).0 e in
          λ n. lock_one-row accounts id bs b one (
            has_row-Locked (find_balance id b) (find_balance id bs')
              (Locked-lock accounts id ids b bs' rest)
              (ap (λ (k : ℕ). find_balance k bs') same ∙ n))
      | inr e ↦ lock_balances-row accounts a ids b bs' rest (ground arith)
    ]

pub contains-insert_id :
    (a x : ℕ) (xs : List ℕ) → contains a (insert_id x xs) ≡ (x == a || contains a xs)
unfolding insert_id
contains-insert_id a x [] = refl
contains-insert_id a x (y ∷ ys) = ground (arith, contains-insert_id a x ys)

-- An account without a row after locking is in none of the entries.
pub amounts-none :
    (a : ℕ) (es : List Entry) → contains a (sorted_ids es) ≡ false → amounts a es ≡ pos 0
unfolding sorted_ids amounts if_ℤ
amounts-none a [] h = refl
amounts-none a (e ∷ es) h =
    grind (int_laws, contains-insert_id a e.account_id (sorted_ids es), amounts-none a es)

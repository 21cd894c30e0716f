-- ===== src/Ledger/Post/Solvency.antt =====
-- After a post no account of a player is below zero.
use mathlib.Core.Path.{subst}
use igame.Common.{
  ℕ, ◌≡◌, refl, ap, sym, ◌∙◌, Bool, true, false, ◌||◌, Option, none, some, List, [], ◌∷◌, arith,
  ◌==◌, ==_iff, Bool-cases, inl, inr, length,
}
use igame.Common.Int.{ℤ, pos, ◌+ℤ◌, ◌≤ℤ◌, int_laws}
use igame.Common.Result.{ok, >>-eq-ok}
use igame.Ledger.Base.{Entry, LockedBalance, Balances, Db, find_balance, is_user_kind}
use igame.Ledger.Deltas.{Deltas, add_delta, add_entries, deltas_of}
use igame.Ledger.Balances.{Moved, Moved-apply, Locked, Locked-lock, delta_sum, if_ℤ}
use igame.Ledger.Post.State.{post_state}
use igame.Ledger.Post.{Request, sorted_ids, lock_balances, check_delta, check_deltas}

abbrev pub SolventRow : Option LockedBalance → Type 0
SolventRow none = Unit
SolventRow (some row) = is_user_kind row.kind ≡ true → pos 0 ≤ℤ row.balance

-- No account of a player is below zero.
abbrev pub IsSolvent : Db → Type 0
IsSolvent db = (a : ℕ) → SolventRow (find_balance a db.balances)

abbrev pub has_key : ℕ → Deltas → Bool
has_key a [] = false
has_key a ((k, d) ∷ rest) = k == a || has_key a rest

abbrev pub OneEach : Deltas → Type 0
OneEach [] = Unit
OneEach ((k, d) ∷ rest) = (has_key k rest ≡ false) × OneEach rest

pub has_key-add :
    (a id : ℕ) (x : ℤ) (ds : Deltas) → has_key a (add_delta id x ds) ≡ (id == a || has_key a ds)
unfolding add_delta
has_key-add a id x [] = refl
has_key-add a id x ((k, d) ∷ rest) = ground (arith, has_key-add a id x rest)

OneEach-add : (id : ℕ) (x : ℤ) (ds : Deltas) → OneEach ds → OneEach (add_delta id x ds)
unfolding add_delta
OneEach-add id x [] h = (refl, tt)
OneEach-add id x ((k, d) ∷ rest) h =
    ground (arith, OneEach-add id x rest h.1, has_key-add k id x rest)

OneEach-entries : (ds : Deltas) (es : List Entry) → OneEach ds → OneEach (add_entries ds es)
unfolding add_entries
OneEach-entries ds [] h = h
OneEach-entries ds (e ∷ es) h =
    OneEach-entries (add_delta e.account_id e.amount ds) es (OneEach-add e.account_id e.amount ds h)

pub delta_sum-none : (a : ℕ) (ds : Deltas) → has_key a ds ≡ false → delta_sum a ds ≡ pos 0
unfolding delta_sum if_ℤ
delta_sum-none a [] h = refl
delta_sum-none a ((k, d) ∷ rest) h = grind (int_laws, delta_sum-none a rest)

-- The test of the deltas, at the row of a player.
check_deltas-solvent :
    (locked : Balances) (ds : Deltas) (a : ℕ) (row : LockedBalance)
    → OneEach ds
    → check_deltas locked ds ≡ ok tt
    → find_balance a locked ≡ some row
    → is_user_kind row.kind ≡ true
    → pos 0 ≤ℤ row.balance
    → pos 0 ≤ℤ row.balance +ℤ delta_sum a ds
unfolding check_deltas check_delta delta_sum if_ℤ
check_deltas-solvent locked [] a row one c f u p = grind int_laws
check_deltas-solvent locked ((k, d) ∷ rest) a row one c f u p =
    let (first, others) = >>-eq-ok (check_delta locked k d) (check_deltas locked rest) c in
    elim (Bool-cases (k == a)) [
      | inr e ↦ rw e (grind (int_laws, check_deltas-solvent locked rest a row one.1 others f u p))
      | inl e ↦
          let same : k ≡ a = (==_iff k a).0 e in
          let here : find_balance k locked ≡ some row =
            ap (λ (x : ℕ). find_balance x locked) same ∙ f in
          rw e (grind (int_laws, here, u, first, delta_sum-none a rest))
    ]

solvent_row :
    (o l n : Option LockedBalance) (d : ℤ)
    → Locked o l
    → Moved l n d
    → SolventRow o
    → ((row : LockedBalance)
        → l ≡ some row
        → is_user_kind row.kind ≡ true
        → pos 0 ≤ℤ row.balance
        → pos 0 ≤ℤ row.balance +ℤ d)
    → SolventRow n
solvent_row o l none d h m s keep = tt
solvent_row o none (some n) d h m s keep = absurd m
solvent_row (some r) (some l) (some n) d h m s keep = λ u.
    let same : l ≡ r = cc in
    let user : is_user_kind l.kind ≡ true = ap is_user_kind (sym m.0) ∙ u in
    let before : pos 0 ≤ℤ l.balance =
      subst (λ (x : LockedBalance). pos 0 ≤ℤ x.balance) (sym same)
        (s (ap (λ (x : LockedBalance). is_user_kind x.kind) (sym same) ∙ user)) in
    subst (λ x. pos 0 ≤ℤ x) (sym m.1) (keep l refl user before)
solvent_row none (some l) (some n) d h m s keep = λ u.
    let user : is_user_kind l.kind ≡ true = ap is_user_kind (sym m.0) ∙ u in
    subst (λ x. pos 0 ≤ℤ x) (sym m.1)
      (keep l refl user (subst (λ x. pos 0 ≤ℤ x) (sym h) (omega arith)))

pub OneEach-deltas_of : (es : List Entry) → OneEach (deltas_of es)
unfolding deltas_of
OneEach-deltas_of es = OneEach-entries [] es tt

pub post_state-IsSolvent :
    (db : Db) (q : Request) (locked : Balances)
    → lock_balances db.accounts (sorted_ids q.entries) db.balances ≡ ok locked
    → check_deltas locked (deltas_of q.entries) ≡ ok tt
    → IsSolvent db
    → IsSolvent (post_state db q locked)
post_state-IsSolvent db q locked e c h a =
    solvent_row (find_balance a db.balances) (find_balance a locked)
      (find_balance a (post_state db q locked).balances) (delta_sum a (deltas_of q.entries))
      (Locked-lock db.accounts a (sorted_ids q.entries) db.balances locked e)
      (Moved-apply (length (post_state db q locked).entries) a (deltas_of q.entries) locked) (h a)
      (λ row f u p.
        check_deltas-solvent locked (deltas_of q.entries) a row (OneEach-deltas_of q.entries) c f u
          p)

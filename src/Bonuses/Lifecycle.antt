-- ===== src/Bonuses/Lifecycle.antt =====
-- The bonus wallet of a player holds what his active bonuses add up to, through every call of
-- packages/core/bonuses.py.
use Prim.Native.String.{◌++◌ as append}
use text.Mathlib.Text.{◌==◌ as str_eq}
use text.Mathlib.TextEquality.{eq_iff}
use text.Mathlib.TextLemmas.{append_cancel_left}
use igame.Common.{
  ℕ, ◌≡◌, refl, ap, sym, ◌∙◌, Bool, true, false, none, some, String, [], ◌∷◌, ◌++◌, arith, ◌==◌,
  Bool-cases, inl, inr,
}
use igame.Common.Int.{ℤ, pos, neg, ◌+ℤ◌, int_laws}
use igame.Ledger as L
use igame.Ledger.{LedgerTransaction}
use igame.Ledger.Balances.{if_ℤ}
use igame.Ledger.Wallets.{Side, same_side, wallet, WalletsAreWf}
use igame.Ledger.Transfers.{IsNew, Moved}
use igame.Payments.Payouts.{decimal}
use igame.Payments.Keys.{differ_at}
use igame.Payments.Taken.{or-false}
use igame.Payments.Reference.Unique.{decimal-injective}
use igame.Bonuses.{
  Bonus, BonusesDb, Grant, is_active, find_bonus, update_bonus, bonus_side, bonus_move, new_bonus,
  grant_move,
}
use igame.Bonuses.Rows.{
  held, active_total, InOrder, has_ended, InOrder-append, active_total-append, has_ended-append,
  InOrder-update, active_total-update, has_ended-update,
}

-- What ends a bonus, and the key under which it posts.
pub data End : Type 0 where
  converts expires revokes : End

abbrev pub end_prefix : End → String
end_prefix converts = "bonus-convert-"
end_prefix expires = "bonus-expire-"
end_prefix revokes = "bonus-revoke-"

abbrev pub end_key : End → ℕ → String
end_key e id = append (end_prefix e) (decimal id)

pub record BonusesAreWf (db : BonusesDb) : Type 0 where
  pub wallets : WalletsAreWf db.ledger
  pub in_order : InOrder 1 db.bonuses
  pub backed : (u : ℕ) → wallet db.ledger (bonus_side u) ≡ active_total u db.bonuses
  pub keys_free :
      (e : End) (id : ℕ) → has_ended id db.bonuses ≡ false → IsNew (end_key e id) db.ledger

same_number : (e : End) (n k : ℕ) → end_key e n ≡ end_key e k → n ≡ k
same_number e n k h =
    decimal-injective n k (append_cancel_left (end_prefix e) (decimal n) (decimal k) h)

keys_apart : (e e' : End) (n k : ℕ) → end_key e n ≡ end_key e' k → n ≡ k
keys_apart converts converts n k h = same_number converts n k h
keys_apart expires expires n k h = same_number expires n k h
keys_apart revokes revokes n k h = same_number revokes n k h
keys_apart converts expires n k h =
    absurd (differ_at "bonus-" "c" "e" "onvert-" "xpire-" (decimal n) (decimal k) refl refl h)
keys_apart converts revokes n k h =
    absurd (differ_at "bonus-" "c" "r" "onvert-" "evoke-" (decimal n) (decimal k) refl refl h)
keys_apart expires converts n k h =
    absurd (differ_at "bonus-" "e" "c" "xpire-" "onvert-" (decimal n) (decimal k) refl refl h)
keys_apart expires revokes n k h =
    absurd (differ_at "bonus-" "e" "r" "xpire-" "evoke-" (decimal n) (decimal k) refl refl h)
keys_apart revokes converts n k h =
    absurd (differ_at "bonus-" "r" "c" "evoke-" "onvert-" (decimal n) (decimal k) refl refl h)
keys_apart revokes expires n k h =
    absurd (differ_at "bonus-" "r" "e" "evoke-" "xpire-" (decimal n) (decimal k) refl refl h)

end_key_apart :
    (e e' : End) (n k : ℕ) → (n == k) ≡ false → str_eq (end_key e n) (end_key e' k) ≡ false
end_key_apart e e' n k h = elim (Bool-cases (str_eq (end_key e n) (end_key e' k))) [
  | inr other ↦ other
  | inl same ↦
      let equal = keys_apart e e' n k ((eq_iff (end_key e n) (end_key e' k)).0 same) in
      absurd (ground (arith, equal, h))
]

same_bonus_side : (a u : ℕ) → same_side (bonus_side a) (bonus_side u) ≡ (a == u)
same_bonus_side a u = elim (Bool-cases (a == u)) [ inl hit ↦ rw hit refl | inr miss ↦ rw miss refl ]

held-active :
    (u : ℕ) (b : Bonus) → is_active b.status ≡ true → held u b ≡ if_ℤ (b.user_id == u) b.amount
held-active u b h = elim (Bool-cases (b.user_id == u)) [
  | inl hit ↦ rw (hit, h) refl
  | inr miss ↦ rw miss refl
]

held-ended : (u : ℕ) (b : Bonus) → is_active b.status ≡ false → held u b ≡ pos 0
unfolding if_ℤ
held-ended u b h = elim (Bool-cases (b.user_id == u)) [
  | inl hit ↦ rw (hit, h) refl
  | inr miss ↦ rw miss refl
]

moves_out :
    (mine : Bool) (a total after total' : ℤ)
    → after ≡ total +ℤ (if_ℤ mine (neg a) +ℤ if_ℤ false a)
    → total' +ℤ if_ℤ mine a ≡ total +ℤ pos 0
    → after ≡ total'
unfolding if_ℤ
moves_out true a total after total' h k = grind (int_laws, h, k)
moves_out false a total after total' h k = grind (int_laws, h, k)

moves_in :
    (mine : Bool) (a total : ℤ)
    → total +ℤ (if_ℤ false (neg a) +ℤ if_ℤ mine a) ≡ total +ℤ if_ℤ mine a
unfolding if_ℤ
moves_in true a total = grind int_laws
moves_in false a total = grind int_laws

-- A bonus that ends: its amount leaves the bonus wallet under the key of the end.
module _ (db : BonusesDb) (id : ℕ) (b : Bonus) (e : End) (kind : String) (target : Side)
    (f : ℕ → Bonus → Bonus) {ledger' : L.Db} (txn : ℕ) (w : BonusesAreWf db)
    (found : find_bonus id db.bonuses ≡ some b) (running : is_active b.status ≡ true)
    (keeps : (q : Bonus) → (f txn q).id ≡ q.id) (ends : is_active (f txn b).status ≡ false)
    (elsewhere : (u : ℕ) → same_side target (bonus_side u) ≡ false)
    (moved : Moved db.ledger
      (bonus_move kind (end_key e id) (bonus_side b.user_id) target b.amount none)
      ledger') where
  backed_after :
      (u : ℕ) → wallet ledger' (bonus_side u) ≡ active_total u (update_bonus (f txn) id db.bonuses)
  backed_after u =
      let after = active_total-update (f txn) keeps u id 1 db.bonuses b w.in_order found in
      moves_out (b.user_id == u) b.amount (active_total u db.bonuses)
        (wallet ledger' (bonus_side u)) (active_total u (update_bonus (f txn) id db.bonuses))
        (moved.moved (bonus_side u)
          ∙ (rw (same_bonus_side b.user_id u, elsewhere u, w.backed u) refl))
        (ap (λ (x : ℤ). active_total u (update_bonus (f txn) id db.bonuses) +ℤ x)
            (sym (held-active u b running))
          ∙ after
          ∙ ap (λ (x : ℤ). active_total u db.bonuses +ℤ x) (held-ended u (f txn b) ends))

  keys_after :
      (e' : End) (k : ℕ)
      → has_ended k (update_bonus (f txn) id db.bonuses) ≡ false
      → IsNew (end_key e' k) ledger'
  keys_after e' k n =
      let both =
        or-false (id == k) (has_ended k db.bonuses)
          (sym (has_ended-update (f txn) keeps k id 1 db.bonuses b w.in_order found ends) ∙ n) in
      moved.keys (end_key e' k) (end_key_apart e e' id k both.0) (w.keys_free e' k both.1)

  pub ended-BonusesAreWf :
      BonusesAreWf (record { bonuses = update_bonus (f txn) id db.bonuses; ledger = ledger' })
  ended-BonusesAreWf = record {
    wallets = moved.wf;
    in_order = InOrder-update (f txn) keeps id 1 db.bonuses w.in_order;
    backed = backed_after;
    keys_free = keys_after;
  }

-- A grant: its amount comes into the bonus wallet, under a key that is no key of an end.
module _ (db : BonusesDb) (g : Grant) (txn : ℕ) {ledger' : L.Db} (w : BonusesAreWf db)
    (other : (e : End) (id : ℕ) → str_eq g.idempotency_key (end_key e id) ≡ false)
    (moved : Moved db.ledger (grant_move g) ledger') where
  pub granted-BonusesAreWf :
      BonusesAreWf (record { bonuses = db.bonuses ++ new_bonus g db txn ∷ []; ledger = ledger' })
  granted-BonusesAreWf = record {
    wallets = moved.wf;
    in_order = InOrder-append 1 db.bonuses (new_bonus g db txn) w.in_order (omega arith);
    backed = λ u.
        moved.moved (bonus_side u)
        ∙ (rw (same_bonus_side g.user_id u, w.backed u)
            (moves_in (g.user_id == u) g.amount (active_total u db.bonuses)))
        ∙ ap (λ (x : ℤ). active_total u db.bonuses +ℤ x)
            (sym (held-active u (new_bonus g db txn) refl))
        ∙ sym (active_total-append u db.bonuses (new_bonus g db txn));
    keys_free = λ e id n.
        moved.keys (end_key e id) (other e id)
          (w.keys_free e id (sym (has_ended-append id db.bonuses (new_bonus g db txn) refl) ∙ n));
  }

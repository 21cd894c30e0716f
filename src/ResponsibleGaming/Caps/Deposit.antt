-- ===== src/ResponsibleGaming/Caps/Deposit.antt =====
-- The deposit cap of packages/core/responsible_gaming.py through set_deposit_limit.
use mathlib.Core.Path.{subst}
use igame.Common.{
  ℕ, ◌+◌, ◌≤◌, ◌<◌, ◌≡◌, refl, sym, ◌∙◌, true, some, arith, if◌then◌else◌, Bool-cases, inl, inr,
  ◌⊎◌,
}
use igame.Common.Int.{ℤ, ltb_ℤ}
use igame.ResponsibleGaming.{
  Limits, Db, effective, effective_deposit_cap, applies_now, hours, limit_increase_delay_hours,
  put_deposit_cap, defer_deposit_cap, set_deposit_limit,
}
use igame.ResponsibleGaming.Caps.{
  limits_of, limits_of-set, IsWf, AtMost, defer-IsWf, cap_after, cap_after-AtMost, cap_after-takes,
}

-- What set_deposit_limit does to the row of the player, and its answer.
deposit_row :
    (db : Db) (u : ℕ) (new : ℤ) (now : ℕ)
    → limits_of (set_deposit_limit db u new now).1 u ≡ (
        if applies_now (effective_deposit_cap (limits_of db u) now) new
        then put_deposit_cap new (limits_of db u)
        else defer_deposit_cap new (now + hours limit_increase_delay_hours) (limits_of db u))
unfolding set_deposit_limit
deposit_row db u new now =
    elim (Bool-cases (applies_now (effective_deposit_cap (limits_of db u) now) new)) [
      | inl e ↦ rw e (limits_of-set db (put_deposit_cap new) u (λ x. refl))
      | inr e ↦ rw e (
          limits_of-set db (defer_deposit_cap new (now + hours limit_increase_delay_hours)) u
            (λ x. refl))
    ]

deposit_answer :
    (db : Db) (u : ℕ) (new : ℤ) (now : ℕ)
    → (set_deposit_limit db u new now).0
      ≡ applies_now (effective_deposit_cap (limits_of db u) now) new
unfolding set_deposit_limit
deposit_answer db u new now =
    elim (Bool-cases (applies_now (effective_deposit_cap (limits_of db u) now) new)) [
      | inl e ↦ rw e refl
      | inr e ↦ rw e refl
    ]

deposit_cap_after :
    (db : Db) (u : ℕ) (new : ℤ) (now t : ℕ) (l : Limits)
    → l ≡ limits_of db u
    → effective_deposit_cap (limits_of (set_deposit_limit db u new now).1 u) t
      ≡ cap_after l.daily_deposit_cap l.pending_daily_deposit_cap
          l.pending_daily_deposit_cap_effective_at new now t
unfolding cap_after effective_deposit_cap
deposit_cap_after db u new now t l same =
    elim (Bool-cases (applies_now (effective_deposit_cap (limits_of db u) now) new)) [
      | inl e ↦ rw (deposit_row db u new now, e, same, e) refl
      | inr e ↦ rw (deposit_row db u new now, e, same, e) refl
    ]

abbrev pub DepositIsWf : Limits → Type 0
DepositIsWf l =
    IsWf l.daily_deposit_cap l.pending_daily_deposit_cap l.pending_daily_deposit_cap_effective_at

-- The pending deposit cap stays no lower than the deposit cap through every call.
pub set_deposit_limit-IsWf :
    (db : Db) (u : ℕ) (new : ℤ) (now : ℕ)
    → DepositIsWf (limits_of db u)
    → DepositIsWf (limits_of (set_deposit_limit db u new now).1 u)
unfolding effective_deposit_cap
set_deposit_limit-IsWf db u new now w =
    elim (Bool-cases (applies_now (effective_deposit_cap (limits_of db u) now) new)) [
      | inl e ↦
          let row : limits_of (set_deposit_limit db u new now).1 u
              ≡ put_deposit_cap new (limits_of db u) =
            rw (deposit_row db u new now, e) refl in
          subst DepositIsWf (sym row) tt
      | inr e ↦
          let l = limits_of db u in
          let row : limits_of (set_deposit_limit db u new now).1 u
              ≡ defer_deposit_cap new (now + hours limit_increase_delay_hours) l =
            rw (deposit_row db u new now, e) refl in
          subst DepositIsWf (sym row) (
            defer-IsWf l.daily_deposit_cap l.pending_daily_deposit_cap
              l.pending_daily_deposit_cap_effective_at now (now + hours limit_increase_delay_hours)
              new w e)
    ]

-- For 24 hours after a call, the deposit cap in force is at most the one that was in force before it,
-- whatever was asked for.
pub set_deposit_limit-tightens :
    (db : Db) (u : ℕ) (new c : ℤ) (now t : ℕ)
    → DepositIsWf (limits_of db u)
    → effective_deposit_cap (limits_of db u) now ≡ some c
    → t < now + hours limit_increase_delay_hours
    → AtMost c (effective_deposit_cap (limits_of (set_deposit_limit db u new now).1 u) t)
unfolding effective_deposit_cap
set_deposit_limit-tightens db u new c now t w e lt =
    let l = limits_of db u in
    subst (AtMost c) (sym (deposit_cap_after db u new now t l refl)) (
      cap_after-AtMost l.daily_deposit_cap l.pending_daily_deposit_cap
        l.pending_daily_deposit_cap_effective_at new c now t w e lt)

-- The deposit cap that was asked for is in force from 24 hours after the call, and at once when the
-- call answers true.
pub set_deposit_limit-takes :
    (db : Db) (u : ℕ) (new : ℤ) (now t : ℕ)
    → (now + hours limit_increase_delay_hours ≤ t) ⊎ ((set_deposit_limit db u new now).0 ≡ true)
    → effective_deposit_cap (limits_of (set_deposit_limit db u new now).1 u) t ≡ some new
unfolding effective_deposit_cap
set_deposit_limit-takes db u new now t h =
    let l = limits_of db u in
    deposit_cap_after db u new now t l refl
    ∙ cap_after-takes l.daily_deposit_cap l.pending_daily_deposit_cap
        l.pending_daily_deposit_cap_effective_at new now t
        (elim h [ inl le ↦ inl le | inr now_ok ↦ inr (sym (deposit_answer db u new now) ∙ now_ok) ])

-- A further raise, asked for after an earlier one came into force: for 24 hours the cap in force is
-- the one from before the earlier raise.
pub set_deposit_limit-falls_back :
    (db : Db) (u : ℕ) (new d p : ℤ) (at now t : ℕ)
    → (limits_of db u).daily_deposit_cap ≡ some d
    → (limits_of db u).pending_daily_deposit_cap ≡ some p
    → (limits_of db u).pending_daily_deposit_cap_effective_at ≡ some at
    → at ≤ now
    → ltb_ℤ p new ≡ true
    → t < now + hours limit_increase_delay_hours
    → (effective_deposit_cap (limits_of db u) now ≡ some p)
      × (effective_deposit_cap (limits_of (set_deposit_limit db u new now).1 u) t ≡ some d)
unfolding effective_deposit_cap effective cap_after applies_now
set_deposit_limit-falls_back db u new d p at now t hd hp ha le raise lt =
    let l = limits_of db u in
    (
      rw (hd, hp, ha) (ground arith),
      deposit_cap_after db u new now t l refl ∙ rw (hd, hp, ha) (ground arith),
    )

-- ===== src/ResponsibleGaming/Caps/Loss.antt =====
-- The loss cap of packages/core/responsible_gaming.py through set_loss_limit.
use mathlib.Core.Path.{subst}
use igame.Common.{
  ℕ, ◌+◌, ◌≤◌, ◌<◌, ◌≡◌, refl, sym, ◌∙◌, true, some, if◌then◌else◌, Bool-cases, inl, inr, ◌⊎◌,
}
use igame.Common.Int.{ℤ}
use igame.ResponsibleGaming.{
  Limits, Db, effective_loss_cap, applies_now, hours, limit_increase_delay_hours, put_loss_cap,
  defer_loss_cap, set_loss_limit,
}
use igame.ResponsibleGaming.Caps.{
  limits_of, limits_of-set, IsWf, AtMost, defer-IsWf, cap_after, cap_after-AtMost, cap_after-takes,
}

-- What set_loss_limit does to the row of the player, and its answer.
loss_row :
    (db : Db) (u : ℕ) (new : ℤ) (now : ℕ)
    → limits_of (set_loss_limit db u new now).1 u ≡ (
        if applies_now (effective_loss_cap (limits_of db u) now) new
        then put_loss_cap new (limits_of db u)
        else defer_loss_cap new (now + hours limit_increase_delay_hours) (limits_of db u))
unfolding set_loss_limit
loss_row db u new now =
    elim (Bool-cases (applies_now (effective_loss_cap (limits_of db u) now) new)) [
      | inl e ↦ rw e (limits_of-set db (put_loss_cap new) u (λ x. refl))
      | inr e ↦ rw e (
          limits_of-set db (defer_loss_cap new (now + hours limit_increase_delay_hours)) u
            (λ x. refl))
    ]

loss_answer :
    (db : Db) (u : ℕ) (new : ℤ) (now : ℕ)
    → (set_loss_limit db u new now).0 ≡ applies_now (effective_loss_cap (limits_of db u) now) new
unfolding set_loss_limit
loss_answer db u new now =
    elim (Bool-cases (applies_now (effective_loss_cap (limits_of db u) now) new)) [
      | inl e ↦ rw e refl
      | inr e ↦ rw e refl
    ]

loss_cap_after :
    (db : Db) (u : ℕ) (new : ℤ) (now t : ℕ) (l : Limits)
    → l ≡ limits_of db u
    → effective_loss_cap (limits_of (set_loss_limit db u new now).1 u) t
      ≡ cap_after l.daily_loss_cap l.pending_daily_loss_cap l.pending_daily_loss_cap_effective_at
          new now t
unfolding cap_after effective_loss_cap
loss_cap_after db u new now t l same =
    elim (Bool-cases (applies_now (effective_loss_cap (limits_of db u) now) new)) [
      | inl e ↦ rw (loss_row db u new now, e, same, e) refl
      | inr e ↦ rw (loss_row db u new now, e, same, e) refl
    ]

abbrev pub LossIsWf : Limits → Type 0
LossIsWf l = IsWf l.daily_loss_cap l.pending_daily_loss_cap l.pending_daily_loss_cap_effective_at

-- The pending loss cap stays no lower than the loss cap through every call.
pub set_loss_limit-IsWf :
    (db : Db) (u : ℕ) (new : ℤ) (now : ℕ)
    → LossIsWf (limits_of db u)
    → LossIsWf (limits_of (set_loss_limit db u new now).1 u)
unfolding effective_loss_cap
set_loss_limit-IsWf db u new now w =
    elim (Bool-cases (applies_now (effective_loss_cap (limits_of db u) now) new)) [
      | inl e ↦
          let row : limits_of (set_loss_limit db u new now).1 u
              ≡ put_loss_cap new (limits_of db u) =
            rw (loss_row db u new now, e) refl in
          subst LossIsWf (sym row) tt
      | inr e ↦
          let l = limits_of db u in
          let row : limits_of (set_loss_limit db u new now).1 u
              ≡ defer_loss_cap new (now + hours limit_increase_delay_hours) l =
            rw (loss_row db u new now, e) refl in
          subst LossIsWf (sym row) (
            defer-IsWf l.daily_loss_cap l.pending_daily_loss_cap
              l.pending_daily_loss_cap_effective_at now (now + hours limit_increase_delay_hours) new
              w e)
    ]

-- For 24 hours after a call, the loss cap in force is at most the one that was in force before it,
-- whatever was asked for.
pub set_loss_limit-tightens :
    (db : Db) (u : ℕ) (new c : ℤ) (now t : ℕ)
    → LossIsWf (limits_of db u)
    → effective_loss_cap (limits_of db u) now ≡ some c
    → t < now + hours limit_increase_delay_hours
    → AtMost c (effective_loss_cap (limits_of (set_loss_limit db u new now).1 u) t)
unfolding effective_loss_cap
set_loss_limit-tightens db u new c now t w e lt =
    let l = limits_of db u in
    subst (AtMost c) (sym (loss_cap_after db u new now t l refl)) (
      cap_after-AtMost l.daily_loss_cap l.pending_daily_loss_cap
        l.pending_daily_loss_cap_effective_at new c now t w e lt)

-- The loss cap that was asked for is in force from 24 hours after the call, and at once when the
-- call answers true.
pub set_loss_limit-takes :
    (db : Db) (u : ℕ) (new : ℤ) (now t : ℕ)
    → (now + hours limit_increase_delay_hours ≤ t) ⊎ ((set_loss_limit db u new now).0 ≡ true)
    → effective_loss_cap (limits_of (set_loss_limit db u new now).1 u) t ≡ some new
unfolding effective_loss_cap
set_loss_limit-takes db u new now t h =
    let l = limits_of db u in
    loss_cap_after db u new now t l refl
    ∙ cap_after-takes l.daily_loss_cap l.pending_daily_loss_cap
        l.pending_daily_loss_cap_effective_at new now t
        (elim h [ inl le ↦ inl le | inr now_ok ↦ inr (sym (loss_answer db u new now) ∙ now_ok) ])

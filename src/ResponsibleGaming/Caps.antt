-- ===== src/ResponsibleGaming/Caps.antt =====
-- What set_deposit_limit and set_loss_limit of packages/core/responsible_gaming.py have in common.
pub mod Deposit
pub mod Loss
use mathlib.Core.Path.{subst}
use igame.Common.{
  ℕ, ◌+◌, ◌*◌, ◌≤◌, ◌<◌, ◌≡◌, refl, ap, sym, ◌∙◌, Bool, true, false, not, ◌&&◌, ◌||◌, Option, none,
  some, String, List, [], ◌∷◌, ◌++◌, arith, ◌==◌, leb, ltb, if◌then◌else◌, Bool-cases, Option-cases,
  inl, inr, ◌⊎◌,
}
use igame.Common.Int.{ℤ, pos, ◌+ℤ◌, ◌≤ℤ◌, leb_ℤ, ltb_ℤ, int_laws}
use igame.ResponsibleGaming.{
  Limits, Db, find_limits, blank, get_or_create_limits, effective, effective_deposit_cap,
  effective_loss_cap, update_limits, set_limits, applies_now, hours, limit_increase_delay_hours,
  put_deposit_cap, defer_deposit_cap, put_loss_cap, defer_loss_cap, set_deposit_limit,
  set_loss_limit,
}

abbrev pub limits_of : Db → ℕ → Limits
limits_of db user_id = (get_or_create_limits db user_id).0

find-append :
    (u : ℕ) (ls : List Limits)
    → find_limits u ls ≡ none
    → find_limits u (ls ++ blank u ∷ []) ≡ some (blank u)
unfolding find_limits
find-append u [] h = ground arith
find-append u (l ∷ rest) h = ground (arith, find-append u rest)

find-created :
    (db : Db) (u : ℕ) → find_limits u (get_or_create_limits db u).1.limits ≡ some (limits_of db u)
unfolding get_or_create_limits
find-created db u = ground (arith, find-append u db.limits)

find-update :
    (f : Limits → Limits) (u : ℕ) (ls : List Limits) (l : Limits)
    → ((x : Limits) → (f x).user_id ≡ x.user_id)
    → find_limits u ls ≡ some l
    → find_limits u (update_limits f u ls) ≡ some (f l)
unfolding find_limits update_limits
find-update f u [] l k h = cc
find-update f u (x ∷ rest) l k h = ground (arith, k x, find-update f u rest l k)

pub find-set :
    (db : Db) (f : Limits → Limits) (u : ℕ)
    → ((x : Limits) → (f x).user_id ≡ x.user_id)
    → find_limits u (set_limits (get_or_create_limits db u).1 f u).limits
      ≡ some (f (limits_of db u))
find-set db f u k =
    find-update f u (get_or_create_limits db u).1.limits (limits_of db u) k (find-created db u)

-- An update of the row of a player is what a later call reads.
pub limits_of-set :
    (db : Db) (f : Limits → Limits) (u : ℕ)
    → ((x : Limits) → (f x).user_id ≡ x.user_id)
    → limits_of (set_limits (get_or_create_limits db u).1 f u) u ≡ f (limits_of db u)
unfolding get_or_create_limits
limits_of-set db f u k =
    read (set_limits (get_or_create_limits db u).1 f u) (f (limits_of db u))
      (find-update f u (get_or_create_limits db u).1.limits (limits_of db u) k (find-created db u))
  where
    read : (d : Db) (l : Limits) → find_limits u d.limits ≡ some l → limits_of d u ≡ l
    read d l e = ground arith

-- A pending cap has a time at which it takes effect, and is no lower than the cap there is.
abbrev pub IsWf : Option ℤ → Option ℤ → Option ℕ → Type 0
IsWf (some current) (some pending) (some at) = current ≤ℤ pending
IsWf current none none = Unit
IsWf _ _ _ = ⊥

-- The cap is at most `c`.
abbrev pub AtMost : ℤ → Option ℤ → Type 0
AtMost c none = ⊥
AtMost c (some x) = x ≤ℤ c

defer-AtMost :
    (current pending : Option ℤ) (at : Option ℕ) (now at' t : ℕ) (new c : ℤ)
    → IsWf current pending at
    → effective current pending at now ≡ some c
    → t < at'
    → AtMost c (effective current (some new) (some at') t)
unfolding effective
defer-AtMost (some d) (some p) (some a) now at' t new c w e lt = ground arith
defer-AtMost (some d) none none now at' t new c w e lt = ground arith
defer-AtMost none none none now at' t new c w e lt = cc
defer-AtMost none none (some a) now at' t new c w e lt = absurd w
defer-AtMost none (some p) at now at' t new c w e lt = absurd w
defer-AtMost (some d) none (some a) now at' t new c w e lt = absurd w
defer-AtMost (some d) (some p) none now at' t new c w e lt = absurd w

pub defer-IsWf :
    (current pending : Option ℤ) (at : Option ℕ) (now at' : ℕ) (new : ℤ)
    → IsWf current pending at
    → applies_now (effective current pending at now) new ≡ false
    → IsWf current (some new) (some at')
unfolding effective applies_now
defer-IsWf (some d) (some p) (some a) now at' new w e = ground arith
defer-IsWf (some d) none none now at' new w e = ground arith
defer-IsWf none none none now at' new w e = cc
defer-IsWf none none (some a) now at' new w e = absurd w
defer-IsWf none (some p) at now at' new w e = absurd w
defer-IsWf (some d) none (some a) now at' new w e = absurd w
defer-IsWf (some d) (some p) none now at' new w e = absurd w

-- The cap in force at `t` after a call at `now`.
unfoldable pub cap_after : Option ℤ → Option ℤ → Option ℕ → ℤ → ℕ → ℕ → Option ℤ
cap_after current pending at new now t =
    if applies_now (effective current pending at now) new
    then effective (some new) none none t
    else effective current (some new) (some (now + hours limit_increase_delay_hours)) t

pub cap_after-AtMost :
    (current pending : Option ℤ) (at : Option ℕ) (new c : ℤ) (now t : ℕ)
    → IsWf current pending at
    → effective current pending at now ≡ some c
    → t < now + hours limit_increase_delay_hours
    → AtMost c (cap_after current pending at new now t)
unfolding cap_after effective applies_now
cap_after-AtMost current pending at new c now t w e lt =
    elim (Bool-cases (applies_now (effective current pending at now) new)) [
      | inl n ↦ rw n (fits n)
      | inr n ↦ rw n (
          defer-AtMost current pending at now (now + hours limit_increase_delay_hours) t new c w e
            lt)
    ]
  where
    fits :
        applies_now (effective current pending at now) new ≡ true
        → AtMost c (effective (some new) none none t)
    fits n =
        let below : leb_ℤ new c ≡ true = subst (λ (o : Option ℤ). applies_now o new ≡ true) e n in
        ground arith

pub cap_after-takes :
    (current pending : Option ℤ) (at : Option ℕ) (new : ℤ) (now t : ℕ)
    → (now + hours limit_increase_delay_hours ≤ t)
      ⊎ (applies_now (effective current pending at now) new ≡ true)
    → cap_after current pending at new now t ≡ some new
unfolding cap_after effective
cap_after-takes current pending at new now t (inr n) = rw n refl
cap_after-takes current pending at new now t (inl le) = ground arith

-- ===== src/ResponsibleGaming/Exclusion.antt =====
-- Self-exclusion and cool-off of packages/core/responsible_gaming.py, over the calls that may follow.
use igame.Common.{
  ℕ, ◌+◌, ◌≡◌, refl, ap, ◌∙◌, Bool, true, false, some, List, arith, ltb, if◌then◌else◌,
}
use igame.Common.Int.{ℤ}
use igame.Common.Result.{ok}
use igame.ResponsibleGaming.{
  User, Db, find_limits, get_or_create_limits, hours, set_deposit_limit, set_loss_limit, cool_off,
  put_cooloff, put_self_excluded, update_limits, days_long, self_exclude, set_status, block_for,
  no_block, find_user, is_cooling, play_block_from_row, check_play_allowed,
}
use igame.ResponsibleGaming.Caps.{limits_of, find-set}
use igame.ResponsibleGaming.Blocks.{joined_row-found}

-- The calls of the module that write.
pub data Step : Db → Db → Type 0 where
  deposit_limit : (db : Db) (u : ℕ) (cap : ℤ) (now : ℕ) → Step db (set_deposit_limit db u cap now).1
  loss_limit : (db : Db) (u : ℕ) (cap : ℤ) (now : ℕ) → Step db (set_loss_limit db u cap now).1
  cooled_off : (db : Db) (u hours now : ℕ) → Step db (cool_off db u hours now)
  self_excluded :
      (db : Db) {db' : Db} (u days now : ℕ) → self_exclude db u days now ≡ ok db' → Step db db'

pub data Steps : Db → Db → Type 0 where
  stay : (db : Db) → Steps db db
  step : {a b c : Db} → Step a b → Steps b c → Steps a c

-- The account of a player is self-excluded.
abbrev pub IsExcluded : ℕ → List User → Type 0
IsExcluded u users =
    (user : User) × (find_user u users ≡ some user) × (user.status ≡ "self_excluded")

users-created : (db : Db) (u : ℕ) → (get_or_create_limits db u).1.users ≡ db.users
unfolding get_or_create_limits
users-created db u = ground arith

users-cool : (db : Db) (u hours now : ℕ) → (cool_off db u hours now).users ≡ db.users
unfolding cool_off
users-cool db u hours now = users-created db u

abbrev excluded_db : Db → ℕ → ℕ → ℕ → Db
excluded_db db u days now =
    let d = (get_or_create_limits db u).1 in
    record d {
      users = set_status "self_excluded" u d.users;
      limits = update_limits (put_self_excluded (now + days_long days)) u d.limits;
    }

-- A cool-off blocks an active player up to its end, and lifts by itself then.
pub cool_off-lifts :
    (db : Db) (u duration now t : ℕ) (user : User)
    → find_user u db.users ≡ some user
    → user.status ≡ "active"
    → (check_play_allowed (cool_off db u duration now) u t).blocked ≡ ltb t (now + hours duration)
unfolding check_play_allowed play_block_from_row is_cooling cool_off
cool_off-lifts db u duration now t user f s =
    rw
      (
        joined_row-found (cool_off db u duration now) u user
            (ap (find_user u) (users-cool db u duration now) ∙ f),
        s,
        found,
      )
      (cooled (ltb t (now + hours duration)))
  where
    cooled : (b : Bool) → (if b then block_for "cooling_off" else no_block).blocked ≡ b
    cooled true = refl
    cooled false = refl

    found :
        find_limits u (cool_off db u duration now).limits
        ≡ some (put_cooloff (now + hours duration) (limits_of db u))
    found = find-set db (put_cooloff (now + hours duration)) u (λ x. refl)

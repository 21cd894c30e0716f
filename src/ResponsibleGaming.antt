-- ===== src/ResponsibleGaming.antt =====
-- packages/core/responsible_gaming.py: deposit and loss limits, cool-off and self-exclusion.
-- Times are seconds, amounts are cents. The clock of a call is an argument.
pub mod Caps
pub mod Blocks
pub mod Exclusion
use text.Mathlib.Text.{◌==◌ as str_eq}
use igame.Common.{
  ℕ, ◌+◌, ◌*◌, Bool, true, false, not, ◌&&◌, ◌||◌, Option, none, some, String, List, [], ◌∷◌, ◌++◌,
  ◌==◌, leb, ltb, if◌then◌else◌,
}
use igame.Common.Int.{ℤ, pos, ◌+ℤ◌, ◌-ℤ◌, leb_ℤ, ltb_ℤ}
use igame.Common.Result.{Result, ok, err}

abbrev pub self_exclusion_minimum_days : ℕ
self_exclusion_minimum_days = 180

abbrev pub limit_increase_delay_hours : ℕ
limit_increase_delay_hours = 24

-- `timedelta(hours=h)` and `timedelta(days=d)`
abbrev pub hours : ℕ → ℕ
hours h = h * 3600

abbrev pub days_long : ℕ → ℕ
days_long d = d * 86400

pub data SelfExclusionError : Type 0 where
  self_exclusion_too_short : ℕ → SelfExclusionError

pub record Limits : Type 0 where
  pub user_id : ℕ
  pub daily_deposit_cap : Option ℤ
  pub pending_daily_deposit_cap : Option ℤ
  pub pending_daily_deposit_cap_effective_at : Option ℕ
  pub daily_loss_cap : Option ℤ
  pub pending_daily_loss_cap : Option ℤ
  pub pending_daily_loss_cap_effective_at : Option ℕ
  pub cooloff_until : Option ℕ
  pub self_excluded_until : Option ℕ

-- A row of `users`.
pub record User : Type 0 where
  pub id : ℕ
  pub status : String

pub record Db : Type 0 where
  pub users : List User
  pub limits : List Limits

unfoldable pub find_limits : ℕ → List Limits → Option Limits
find_limits user_id [] = none
find_limits user_id (l ∷ rest) = if l.user_id == user_id then some l else find_limits user_id rest

-- The row that the insert makes.
abbrev pub blank : ℕ → Limits
blank user_id = record {
  user_id = user_id;
  daily_deposit_cap = none;
  pending_daily_deposit_cap = none;
  pending_daily_deposit_cap_effective_at = none;
  daily_loss_cap = none;
  pending_daily_loss_cap = none;
  pending_daily_loss_cap_effective_at = none;
  cooloff_until = none;
  self_excluded_until = none;
}

unfoldable pub get_or_create_limits : Db → ℕ → Limits × Db
get_or_create_limits db user_id = elim (find_limits user_id db.limits) [
  | some l ↦ (l, db)
  | none ↦ (blank user_id, record db { limits = db.limits ++ blank user_id ∷ [] })
]

-- `_effective`
unfoldable pub effective : Option ℤ → Option ℤ → Option ℕ → ℕ → Option ℤ
effective current (some pending) (some at) now = if leb at now then some pending else current
effective current (some pending) none now = current
effective current none at now = current

unfoldable pub effective_deposit_cap : Limits → ℕ → Option ℤ
effective_deposit_cap l now =
    effective l.daily_deposit_cap l.pending_daily_deposit_cap
      l.pending_daily_deposit_cap_effective_at now

unfoldable pub effective_loss_cap : Limits → ℕ → Option ℤ
effective_loss_cap l now =
    effective l.daily_loss_cap l.pending_daily_loss_cap l.pending_daily_loss_cap_effective_at now

-- `UPDATE responsible_gaming_limits SET ... WHERE user_id = $1`
unfoldable pub update_limits : (Limits → Limits) → ℕ → List Limits → List Limits
update_limits f user_id [] = []
update_limits f user_id (l ∷ rest) =
    (if l.user_id == user_id then f l else l) ∷ update_limits f user_id rest

abbrev pub set_limits : Db → (Limits → Limits) → ℕ → Db
set_limits db f user_id = record db { limits = update_limits f user_id db.limits }

-- `current is None or new_cap <= current`
unfoldable pub applies_now : Option ℤ → ℤ → Bool
applies_now none new_cap = true
applies_now (some current) new_cap = leb_ℤ new_cap current

abbrev pub put_deposit_cap : ℤ → Limits → Limits
put_deposit_cap new_cap l = record l {
  daily_deposit_cap = some new_cap;
  pending_daily_deposit_cap = none;
  pending_daily_deposit_cap_effective_at = none;
}

abbrev pub defer_deposit_cap : ℤ → ℕ → Limits → Limits
defer_deposit_cap new_cap at l = record l {
  pending_daily_deposit_cap = some new_cap;
  pending_daily_deposit_cap_effective_at = some at;
}

abbrev pub put_loss_cap : ℤ → Limits → Limits
put_loss_cap new_cap l = record l {
  daily_loss_cap = some new_cap;
  pending_daily_loss_cap = none;
  pending_daily_loss_cap_effective_at = none;
}

abbrev pub defer_loss_cap : ℤ → ℕ → Limits → Limits
defer_loss_cap new_cap at l = record l {
  pending_daily_loss_cap = some new_cap;
  pending_daily_loss_cap_effective_at = some at;
}

-- True when the new cap applies at once.
unfoldable pub set_deposit_limit : Db → ℕ → ℤ → ℕ → Bool × Db
set_deposit_limit db user_id new_cap now =
    let (l, db') = get_or_create_limits db user_id in
    if applies_now (effective_deposit_cap l now) new_cap
    then (true, set_limits db' (put_deposit_cap new_cap) user_id)
    else (
      false,
      set_limits db' (defer_deposit_cap new_cap (now + hours limit_increase_delay_hours)) user_id,
    )

unfoldable pub set_loss_limit : Db → ℕ → ℤ → ℕ → Bool × Db
set_loss_limit db user_id new_cap now =
    let (l, db') = get_or_create_limits db user_id in
    if applies_now (effective_loss_cap l now) new_cap
    then (true, set_limits db' (put_loss_cap new_cap) user_id)
    else (
      false,
      set_limits db' (defer_loss_cap new_cap (now + hours limit_increase_delay_hours)) user_id,
    )

abbrev pub put_cooloff : ℕ → Limits → Limits
put_cooloff until l = record l { cooloff_until = some until }

unfoldable pub cool_off : Db → ℕ → ℕ → ℕ → Db
cool_off db user_id duration_hours now =
    let (l, db') = get_or_create_limits db user_id in
    set_limits db' (put_cooloff (now + hours duration_hours)) user_id

-- `UPDATE users SET status = ... WHERE id = $1`
unfoldable pub set_status : String → ℕ → List User → List User
set_status status id [] = []
set_status status id (u ∷ rest) =
    (if u.id == id then record u { status = status } else u) ∷ set_status status id rest

abbrev pub put_self_excluded : ℕ → Limits → Limits
put_self_excluded until l = record l { self_excluded_until = some until }

unfoldable pub self_exclude : Db → ℕ → ℕ → ℕ → Result SelfExclusionError Db
self_exclude db user_id days now =
    if ltb days self_exclusion_minimum_days
    then err (self_exclusion_too_short days)
    else let (l, db') = get_or_create_limits db user_id in
      ok (record db' {
        users = set_status "self_excluded" user_id db'.users;
        limits = update_limits (put_self_excluded (now + days_long days)) user_id db'.limits;
      })

pub record PlayBlock : Type 0 where
  pub blocked : Bool
  pub reason : Option String

abbrev pub no_block : PlayBlock
no_block = record { blocked = false; reason = none }

abbrev pub block_for : String → PlayBlock
block_for reason = record { blocked = true; reason = some reason }

unfoldable pub find_user : ℕ → List User → Option User
find_user id [] = none
find_user id (u ∷ rest) = if u.id == id then some u else find_user id rest

abbrev pub cooloff_of : Option Limits → Option ℕ
cooloff_of none = none
cooloff_of (some l) = l.cooloff_until

-- `cooloff_until is not None and now < cooloff_until`
unfoldable pub is_cooling : Option ℕ → ℕ → Bool
is_cooling none now = false
is_cooling (some until) now = ltb now until

-- `_play_block_from_row`, for the row of the join of `users` with the limits.
unfoldable pub play_block_from_row : Option (String × Option ℕ) → ℕ → PlayBlock
play_block_from_row none now = no_block
play_block_from_row (some (status, cooloff_until)) now =
    if str_eq status "self_excluded"
    then block_for "self_excluded"
    else if str_eq status "banned"
    then block_for "banned"
    else if is_cooling cooloff_until now
    then block_for "cooling_off"
    else no_block

-- The row of the LEFT JOIN.
unfoldable pub joined_row : Db → ℕ → Option (String × Option ℕ)
joined_row db user_id = elim (find_user user_id db.users) [
  | none ↦ none
  | some u ↦ some (u.status, cooloff_of (find_limits user_id db.limits))
]

unfoldable pub check_play_allowed : Db → ℕ → ℕ → PlayBlock
check_play_allowed db user_id now = play_block_from_row (joined_row db user_id) now

abbrev pub loss_cap_of : Option Limits → ℕ → Option ℤ
loss_cap_of none now = none
loss_cap_of (some l) now = effective_loss_cap l now

abbrev pub check_loss : Option ℤ → ℤ → ℤ → PlayBlock
check_loss none net_loss stake = no_block
check_loss (some loss_cap) net_loss stake =
    if ltb_ℤ loss_cap (net_loss +ℤ stake) then block_for "loss_limit_reached" else no_block

abbrev pub is_none : Option (String × Option ℕ) → Bool
is_none none = true
is_none (some row) = false

-- `net_loss` is what `today_net_loss` answers.
unfoldable pub check_stake_allowed : Db → ℕ → ℤ → ℤ → ℕ → PlayBlock
check_stake_allowed db user_id stake net_loss now =
    let row = joined_row db user_id in
    let block = play_block_from_row row now in
    if block.blocked || is_none row
    then block
    else check_loss (loss_cap_of (find_limits user_id db.limits) now) net_loss stake

-- The ids that the query of `marketing_eligible_user_ids` selects.
unfoldable pub eligible_of : List Limits → List User → ℕ → List ℕ
eligible_of limits [] now = []
eligible_of limits (u ∷ rest) now =
    let more = eligible_of limits rest now in
    if not (str_eq u.status "self_excluded" || str_eq u.status "banned")
      && not (is_cooling (cooloff_of (find_limits u.id limits)) now)
    then u.id ∷ more
    else more

unfoldable pub marketing_eligible_user_ids : Db → ℕ → List ℕ
marketing_eligible_user_ids db now = eligible_of db.limits db.users now

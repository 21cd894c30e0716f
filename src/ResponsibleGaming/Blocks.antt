-- ===== src/ResponsibleGaming/Blocks.antt =====
-- Who may play, stake and be written to, by packages/core/responsible_gaming.py.
use mathlib.Core.Path.{subst}
use text.Mathlib.Text.{◌==◌ as str_eq}
use igame.Common.{
  ℕ, ◌≡◌, refl, ap, ◌∙◌, Bool, true, false, not, ◌&&◌, ◌||◌, Option, none, some, String, List, [],
  ◌∷◌, arith, ◌==◌, ==_iff, if◌then◌else◌, Bool-cases, Option-cases, inl, inr, ◌↔◌,
}
use igame.Common.Int.{ℤ, ◌+ℤ◌, ◌≤ℤ◌}
use igame.Common.Counts.{contains}
use igame.ResponsibleGaming.{
  Limits, User, Db, find_limits, PlayBlock, block_for, no_block, find_user, cooloff_of, is_cooling,
  play_block_from_row, joined_row, check_play_allowed, loss_cap_of, check_loss, check_stake_allowed,
  eligible_of, marketing_eligible_user_ids,
}

abbrev pub is_user : Option User → Bool
is_user none = false
is_user (some _) = true

-- `users.id` is the primary key.
abbrev pub HasIds : List User → Type 0
HasIds [] = Unit
HasIds (u ∷ rest) = (find_user u.id rest ≡ none) × HasIds rest

eligible_of-none :
    (limits : List Limits) (users : List User) (a now : ℕ)
    → find_user a users ≡ none
    → contains a (eligible_of limits users now) ≡ false
unfolding eligible_of find_user
eligible_of-none limits [] a now h = refl
eligible_of-none limits (u ∷ rest) a now h = ground (arith, eligible_of-none limits rest a now)

-- A row's player is selected for marketing.
unfoldable is_selected : String → Option ℕ → ℕ → Bool
is_selected status until now =
    not (str_eq status "self_excluded" || str_eq status "banned") && not (is_cooling until now)

is_selected-play :
    (status : String) (until : Option ℕ) (now : ℕ)
    → is_selected status until now ≡ not (play_block_from_row (some (status, until)) now).blocked
unfolding is_selected play_block_from_row
is_selected-play status until now =
    tests (str_eq status "self_excluded") (str_eq status "banned") (is_cooling until now)
  where
    tests :
        (p q r : Bool)
        → (not (p || q) && not r)
          ≡ not
              (if p
                then block_for "self_excluded"
                else if q
                then block_for "banned"
                else if r
                then block_for "cooling_off"
                else no_block).blocked
    tests true q r = refl
    tests false true r = refl
    tests false false true = refl
    tests false false false = refl

selected-head :
    (b : Bool) (a : ℕ) (rest : List ℕ)
    → contains a rest ≡ false
    → contains a (if b then a ∷ rest else rest) ≡ b
selected-head true a rest h = ground arith
selected-head false a rest h = h

selected-tail :
    (b : Bool) (x a : ℕ) (rest : List ℕ)
    → (x == a) ≡ false
    → contains a (if b then x ∷ rest else rest) ≡ contains a rest
selected-tail true x a rest h = ground arith
selected-tail false x a rest h = refl

eligible_of_iff :
    (limits : List Limits) (users : List User) (a now : ℕ) (user : User)
    → HasIds users
    → find_user a users ≡ some user
    → contains a (eligible_of limits users now)
      ≡ not
          (play_block_from_row (some (user.status, cooloff_of (find_limits a limits))) now).blocked
unfolding eligible_of find_user is_selected
eligible_of_iff limits [] a now user k h = cc
eligible_of_iff limits (u ∷ rest) a now user k h = elim (Bool-cases (u.id == a)) [
  | inl e ↦
      let same : u ≡ user = ground arith in
      let key : u.id ≡ a = (==_iff u.id a).0 e in
      subst
        (λ (x : ℕ).
          contains x (eligible_of limits (u ∷ rest) now)
          ≡ not
              (play_block_from_row (some (user.status, cooloff_of (find_limits x limits)))
                now).blocked)
        key
        (selected-head (is_selected u.status (cooloff_of (find_limits u.id limits)) now) u.id
            (eligible_of limits rest now) (eligible_of-none limits rest u.id now k.0)
          ∙ is_selected-play u.status (cooloff_of (find_limits u.id limits)) now
          ∙ ap
              (λ (x : User).
                not
                  (play_block_from_row (some (x.status, cooloff_of (find_limits u.id limits)))
                    now).blocked)
              same)
  | inr e ↦
      selected-tail (is_selected u.status (cooloff_of (find_limits u.id limits)) now) u.id a
        (eligible_of limits rest now) e
      ∙ eligible_of_iff limits rest a now user k.1 (ground arith)
]

pub joined_row-found :
    (db : Db) (a : ℕ) (user : User)
    → find_user a db.users ≡ some user
    → joined_row db a ≡ some (user.status, cooloff_of (find_limits a db.limits))
unfolding joined_row
joined_row-found db a user e = ground arith

-- The audience of a marketing message is the players that may play: those who are neither
-- self-excluded, nor banned, nor cooling off.
pub marketing-iff-allowed :
    (db : Db) (a now : ℕ)
    → HasIds db.users
    → contains a (marketing_eligible_user_ids db now)
      ≡ (is_user (find_user a db.users) && not (check_play_allowed db a now).blocked)
unfolding marketing_eligible_user_ids check_play_allowed
marketing-iff-allowed db a now k = elim (Option-cases (find_user a db.users)) [
  | inl e ↦ rw e (eligible_of-none db.limits db.users a now e)
  | inr (user, e) ↦
      rw (e, joined_row-found db a user e) (eligible_of_iff db.limits db.users a now user k e)
]

-- A stake is let through just when its player may play and the net loss of the day with the stake
-- stays within the loss cap in force.
pub check_stake_allowed_iff :
    (db : Db) (a now : ℕ) (stake net_loss cap : ℤ) (user : User)
    → find_user a db.users ≡ some user
    → loss_cap_of (find_limits a db.limits) now ≡ some cap
    → ((check_stake_allowed db a stake net_loss now).blocked ≡ false)
      ↔ (((check_play_allowed db a now).blocked ≡ false) × (net_loss +ℤ stake ≤ℤ cap))
unfolding check_stake_allowed check_play_allowed
check_stake_allowed_iff db a now stake net_loss cap user e c =
    rw (joined_row-found db a user e, c)
      (gate (play_block_from_row (some (user.status, cooloff_of (find_limits a db.limits))) now))
  where
    gate :
        (b : PlayBlock)
        → ((if b.blocked || false then b else check_loss (some cap) net_loss stake).blocked ≡ false)
          ↔ ((b.blocked ≡ false) × (net_loss +ℤ stake ≤ℤ cap))
    gate b = ground arith

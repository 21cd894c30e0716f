-- ===== src/Ledger/Wallets.antt =====
-- The wallets of a ledger: the account of a user and a kind, and what is on it (packages/core/ledger.py).
use text.Mathlib.Text.{◌==◌ as str_eq}
use text.Mathlib.TextEquality.{eq_iff}
use text.Mathlib.TextPositions.{eq_refl}
use mathlib.Core.Path.{subst}
use igame.Common.{
  ℕ, ◌+◌, ◌≤◌, ◌<◌, ◌≡◌, refl, ap, sym, ◌∙◌, ◌↔◌, Bool, true, false, ◌&&◌, Option, none, some,
  String, List, [], ◌∷◌, ◌++◌, arith, ◌==◌, if◌then◌else◌, length, length-append, Bool-cases,
  Option-cases, inl, inr,
}
use igame.Common.Int.{ℤ, pos}
use igame.Ledger.Base.{Account, Db, opt_eq, balance, find_account, get_or_create_account}
use igame.Ledger.Post.Sound.{IsSound}

-- A user, or none for the house, and the kind of an account in birr.
pub record Side : Type 0 where
  pub user_id : Option ℕ
  pub kind : String

abbrev pub same_side : Side → Side → Bool
same_side s t = opt_eq s.user_id t.user_id && str_eq s.kind t.kind

abbrev pub side_of : ℕ → String → Side
side_of user_id kind = record { user_id = some user_id; kind = kind }

abbrev pub house_side : String → Side
house_side kind = record { user_id = none; kind = kind }

abbrev pub find_side : Side → List Account → Option Account
find_side s accounts = find_account s.user_id s.kind "ETB" accounts

abbrev pub balance_at : Db → Option Account → ℤ
balance_at db none = pos 0
balance_at db (some a) = balance db a.id

-- What a side holds.
unfoldable pub wallet : Db → Side → ℤ
wallet db s = balance_at db (find_side s db.accounts)

abbrev is_side : Side → Account → Bool
is_side s a = opt_eq a.user_id s.user_id && str_eq a.kind s.kind && str_eq a.currency "ETB"

opt_eq_iff : (a b : Option ℕ) → (opt_eq a b ≡ true) ↔ (a ≡ b)
opt_eq_iff none none = ((λ h. refl), (λ h. refl))
opt_eq_iff none (some b) = ((λ h. cc), (λ h. cc))
opt_eq_iff (some a) none = ((λ h. cc), (λ h. cc))
opt_eq_iff (some a) (some b) = ground arith

-- Accounts are numbered as they are made.
abbrev pub Numbered : ℕ → List Account → Type 0
Numbered n [] = Unit
Numbered n (a ∷ rest) = (a.id ≡ n) × Numbered (n + 1) rest

pub Numbered-append :
    (n : ℕ) (accounts : List Account) (a : Account)
    → Numbered n accounts
    → a.id ≡ n + length accounts
    → Numbered n (accounts ++ a ∷ [])
Numbered-append n [] a h e = (omega (arith, e), tt)
Numbered-append n (x ∷ rest) a (h, more) e =
    (h, Numbered-append (n + 1) rest a more (omega (arith, e)))

pub find_side-range :
    (s : Side) (n : ℕ) (accounts : List Account) (a : Account)
    → Numbered n accounts
    → find_side s accounts ≡ some a
    → (n ≤ a.id) × (a.id < n + length accounts)
unfolding find_account
find_side-range s n [] a h f = cc
find_side-range s n (x ∷ rest) a (h, more) f = elim (Bool-cases (is_side s x)) [
  | inl hit ↦ ground (arith, hit, f)
  | inr miss ↦
      let below = find_side-range s (n + 1) rest a more (ground (arith, miss, f)) in
      omega (arith, below)
]

-- The same side picks the same accounts.
same_side-is_side : (s t : Side) (x : Account) → same_side s t ≡ true → is_side t x ≡ is_side s x
same_side-is_side s t x h =
    let users : s.user_id ≡ t.user_id = (opt_eq_iff s.user_id t.user_id).0 (ground arith) in
    let kinds : s.kind ≡ t.kind = (eq_iff s.kind t.kind).0 (ground (arith, users)) in
    rw (users, kinds) refl

-- A side with no account is not a side with one.
pub other_side-none :
    (s t : Side) (accounts : List Account) (a : Account)
    → find_side s accounts ≡ some a
    → find_side t accounts ≡ none
    → same_side s t ≡ false
unfolding find_account
other_side-none s t accounts a f n = elim (Bool-cases (same_side s t)) [
  | inr other ↦ other
  | inl same ↦
      let users : s.user_id ≡ t.user_id = (opt_eq_iff s.user_id t.user_id).0 (ground arith) in
      let kinds : s.kind ≡ t.kind = (eq_iff s.kind t.kind).0 (ground (arith, users)) in
      absurd (cc (f, n, users, kinds))
]

is_side-same_side :
    (s t : Side) (x : Account) → is_side s x ≡ true → is_side t x ≡ true → same_side s t ≡ true
is_side-same_side s t x hs ht =
    let us : x.user_id ≡ s.user_id = (opt_eq_iff x.user_id s.user_id).0 (ground arith) in
    let ks : x.kind ≡ s.kind = (eq_iff x.kind s.kind).0 (ground arith) in
    let ut : x.user_id ≡ t.user_id = (opt_eq_iff x.user_id t.user_id).0 (ground arith) in
    let kt : x.kind ≡ t.kind = (eq_iff x.kind t.kind).0 (ground arith) in
    let users : opt_eq s.user_id t.user_id ≡ true =
      (opt_eq_iff s.user_id t.user_id).1 (sym us ∙ ut) in
    let kinds : str_eq s.kind t.kind ≡ true = (eq_iff s.kind t.kind).1 (sym ks ∙ kt) in
    rw (users, kinds) refl

other_side :
    (s t : Side) (x : Account) → is_side s x ≡ true → is_side t x ≡ false → same_side s t ≡ false
other_side s t x hs ht = elim (Bool-cases (same_side s t)) [
  | inl same ↦ absurd (ground (arith, same_side-is_side s t x same))
  | inr other ↦ other
]

same_side_comm : (s t : Side) → same_side s t ≡ same_side t s
same_side_comm s t = ground (
  arith,
  opt_eq_iff s.user_id t.user_id,
  opt_eq_iff t.user_id s.user_id,
  eq_iff s.kind t.kind,
  eq_iff t.kind s.kind,
)

-- Accounts of two sides have one id just when the sides are the same.
pub find_side-same :
    (s t : Side) (n : ℕ) (accounts : List Account) (a b : Account)
    → Numbered n accounts
    → find_side s accounts ≡ some a
    → find_side t accounts ≡ some b
    → (a.id == b.id) ≡ same_side s t
unfolding find_account
find_side-same s t n [] a b h f g = cc
find_side-same s t n (x ∷ rest) a b (h, more) f g = elim (Bool-cases (is_side s x)) [
  | inl hit ↦ elim (Bool-cases (is_side t x)) [
    | inl hit' ↦ ground (arith, hit, hit', f, g, is_side-same_side s t x hit hit')
    | inr miss' ↦
        let later = find_side-range t (n + 1) rest b more (ground (arith, miss', g)) in
        let here : x ≡ a = ground (arith, hit, f) in
        ground (arith, later, h, ap (λ (y : Account). y.id) here, other_side s t x hit miss')
  ]
  | inr miss ↦ elim (Bool-cases (is_side t x)) [
    | inl hit' ↦
        let later = find_side-range s (n + 1) rest a more (ground (arith, miss, f)) in
        let here : x ≡ b = ground (arith, hit', g) in
        ground (
          arith,
          later,
          h,
          ap (λ (y : Account). y.id) here,
          other_side t s x hit' miss,
          same_side_comm s t,
        )
    | inr miss' ↦
        find_side-same s t (n + 1) rest a b more (ground (arith, miss, f))
          (ground (arith, miss', g))
  ]
]

-- Where an appended account is found.
find_side-append :
    (s : Side) (accounts : List Account) (x : Account)
    → find_side s (accounts ++ x ∷ []) ≡ elim (find_side s accounts) as (λ o. Option Account) [
      | some a ↦ some a
      | none ↦ if is_side s x then some x else none
    ]
unfolding find_account
find_side-append s [] x = refl
find_side-append s (y ∷ rest) x = elim (Bool-cases (is_side s y)) [
  | inl hit ↦ rw hit refl
  | inr miss ↦ rw miss (find_side-append s rest x)
]

-- The ledger is sound, its accounts are numbered from 1, and nothing is booked past the last of them.
pub record WalletsAreWf (db : Db) : Type 0 where
  pub sound : IsSound db
  pub numbered : Numbered 1 db.accounts
  pub unused : (k : ℕ) → length db.accounts < k → balance db k ≡ pos 0

pub IsSound-accounts :
    (accounts : List Account) (db : Db) → IsSound db → IsSound (record db { accounts = accounts })
unfolding balance
IsSound-accounts accounts db s = record {
  keys = s.keys;
  reconciled = s.reconciled;
  solvent = s.solvent;
  balanced = s.balanced;
  total_zero = s.total_zero;
}

abbrev pub open_side : Db → Side → Account × Db
open_side db s = get_or_create_account db s.user_id s.kind "ETB"

-- What opening an account leaves: the same ledger with perhaps one account more.
pub record Opened (db : Db) (s : Side) (a : Account) (db' : Db) : Type 0 where
  pub wf : WalletsAreWf db'
  pub same : (t : Side) → wallet db' t ≡ wallet db t
  pub found : find_side s db'.accounts ≡ some a
  pub kept :
      (t : Side) (b : Account)
      → find_side t db.accounts ≡ some b
      → find_side t db'.accounts ≡ some b
  pub transactions : db'.transactions ≡ db.transactions

abbrev new_account : Db → Side → Account
new_account db s = record {
  id = length db.accounts + 1;
  user_id = s.user_id;
  kind = s.kind;
  currency = "ETB";
}

abbrev with_account : Db → Account → Db
with_account db x = record db { accounts = db.accounts ++ x ∷ [] }

is_side-new : (db : Db) (s : Side) → is_side s (new_account db s) ≡ true
is_side-new db s = ground (arith, (opt_eq_iff s.user_id s.user_id).1 refl, eq_refl s.kind)

appended-same :
    (db : Db) (x : Account) (t : Side)
    → WalletsAreWf db
    → x.id ≡ length db.accounts + 1
    → wallet (with_account db x) t ≡ wallet db t
unfolding wallet balance
appended-same db x t w e = elim (Option-cases (find_side t db.accounts)) [
  | inr (b, f) ↦ rw (find_side-append t db.accounts x, f) refl
  | inl n ↦ elim (Bool-cases (is_side t x)) [
    | inl hit ↦ rw (find_side-append t db.accounts x, n, hit) (w.unused x.id (omega (arith, e)))
    | inr miss ↦ rw (find_side-append t db.accounts x, n, miss) refl
  ]
]

appended-Opened :
    (db : Db) (s : Side)
    → WalletsAreWf db
    → find_side s db.accounts ≡ none
    → Opened db s (new_account db s) (with_account db (new_account db s))
unfolding balance
appended-Opened db s w n =
    let x = new_account db s in
    record {
      wf = record {
        sound = IsSound-accounts (db.accounts ++ x ∷ []) db w.sound;
        numbered = Numbered-append 1 db.accounts x w.numbered (omega arith);
        unused = λ k h. w.unused k (omega (arith, h, length-append db.accounts (x ∷ [])));
      };
      same = λ t. appended-same db x t w refl;
      found = find_side-append s db.accounts x ∙ (rw (n, is_side-new db s) refl);
      kept = λ t b f. find_side-append t db.accounts x ∙ (rw f refl);
      transactions = refl;
    }

open_side-new :
    (db : Db) (s : Side)
    → find_side s db.accounts ≡ none
    → open_side db s ≡ (new_account db s, with_account db (new_account db s))
unfolding get_or_create_account
open_side-new db s n = ground arith

open_side-found :
    (db : Db) (s : Side) (a : Account) → find_side s db.accounts ≡ some a → open_side db s ≡ (a, db)
unfolding get_or_create_account
open_side-found db s a f = ground arith

pub open_side-Opened :
    (db : Db) (s : Side) → WalletsAreWf db → Opened db s (open_side db s).0 (open_side db s).1
open_side-Opened db s w = elim (Option-cases (find_side s db.accounts)) [
  | inl n ↦
      subst (λ (r : Account × Db). Opened db s r.0 r.1) (sym (open_side-new db s n))
        (appended-Opened db s w n)
  | inr (a, f) ↦
      subst (λ (r : Account × Db). Opened db s r.0 r.1) (sym (open_side-found db s a f))
        (record { wf = w; same = λ t. refl; found = f; kept = λ t b g. g; transactions = refl })
]

-- ===== src/Round/Recovery.antt =====
-- recover_orphaned_rounds of services/engine/recovery.py. Whether the lock of a room is held is an argument,
-- and each refund is a transaction of its own.
pub mod Orphans
pub mod Sweep
use igame.Common.{
  ℕ, ◌≡◌, refl, ap, sym, ◌∙◌, Bool, true, false, ◌&&◌, ◌||◌, not, Option, none, some, String, List,
  [], ◌∷◌, arith, ◌==◌, ltb, if◌then◌else◌, Bool-cases, inl, inr,
}
use igame.Common.Result.{Result, ok, err, ◌>>=◌, >>=-eq-ok, ok-injective}
use igame.Ledger.Post.{PostError}
use igame.Round.{Status, lobby, running, settling, same_status}
use igame.Round.Join.{RoundRow, Tables, latest_seq}
use igame.Round.Settle.{find_round, refund_round}
use igame.Round.Funds.{is_over, refund_round-over, refund_round-keeps}

-- `status = ANY(NON_TERMINAL_STATUSES)`
abbrev pub is_non_terminal : Status → Bool
is_non_terminal s = same_status s lobby || same_status s running || same_status s settling

unfoldable pub stuck_rounds : List RoundRow → List RoundRow
stuck_rounds [] = []
stuck_rounds (r ∷ rest) =
    let more = stuck_rounds rest in if is_non_terminal r.status then r ∷ more else more

-- No live engine owns the round.
unfoldable pub is_orphaned : (ℕ → Bool) → List RoundRow → RoundRow → Bool
is_orphaned lock_held rounds r = not (r.seq == latest_seq r.room_id rounds && lock_held r.room_id)

-- What the loop raises comes with the tables that the refunds before it have committed.
abbrev pub committed : {A : Type 0} → Tables → Result PostError A → Result (Tables × PostError) A
committed t (ok a) = ok a
committed t (err e) = err (t, e)

abbrev recovered_one : ℕ → ℕ → List ℕ → List ℕ
recovered_one id refunded ids = if refunded == 0 then ids else id ∷ ids

-- The refund of a round, and then the rest of the loop.
abbrev pub recover_round :
    ℕ
    → (Tables → Result (Tables × PostError) (List ℕ × Tables))
    → Tables
    → Result (Tables × PostError) (List ℕ × Tables)
recover_round id rest t =
    committed t (refund_round t id "crash_recovery") >>= λ (refunded : ℕ × Tables).
    rest refunded.1 >>= λ (later : List ℕ × Tables).
    ok (recovered_one id refunded.0 later.0, later.1)

-- The loop over the stuck rounds, with the rounds as they were read before it.
unfoldable pub recover_loop :
    (ℕ → Bool)
    → List RoundRow
    → List RoundRow
    → Tables
    → Result (Tables × PostError) (List ℕ × Tables)
recover_loop lock_held rounds [] t = ok ([], t)
recover_loop lock_held rounds (r ∷ rest) t =
    let skip = recover_loop lock_held rounds rest t in
    let refund = recover_round r.id (recover_loop lock_held rounds rest) t in
    if is_orphaned lock_held rounds r then refund else skip

-- The rounds that were recovered.
unfoldable pub recover_orphaned_rounds :
    (ℕ → Bool) → Tables → Result (Tables × PostError) (List ℕ × Tables)
recover_orphaned_rounds lock_held t = recover_loop lock_held t.rounds (stuck_rounds t.rounds) t

-- A round with a number is orphaned.
unfoldable pub has_orphan : (ℕ → Bool) → List RoundRow → ℕ → List RoundRow → Bool
has_orphan lock_held rounds id [] = false
has_orphan lock_held rounds id (r ∷ rest) =
    (r.id == id && is_orphaned lock_held rounds r) || has_orphan lock_held rounds id rest

-- What has become of one round.
abbrev pub Fate : Bool → ℕ → Tables → Tables → Type 0
Fate true id t t' = is_over (find_round id t'.rounds) ≡ true
Fate false id t t' = find_round id t'.rounds ≡ find_round id t.rounds

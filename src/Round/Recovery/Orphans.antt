-- ===== src/Round/Recovery/Orphans.antt =====
-- What a sweep leaves: each orphaned round is over, and no other round has changed
-- (services/engine/recovery.py).
use igame.Common.{
  ℕ, ◌≡◌, ap, sym, ◌∙◌, Bool, true, false, List, [], ◌∷◌, arith, ◌==◌, Bool-cases, inl, inr,
}
use igame.Common.Result.{Result, ok, err, >>=-eq-ok, ok-injective}
use igame.Ledger.Post.{PostError}
use igame.Round.Join.{RoundRow, Tables}
use igame.Round.Settle.{find_round, refund_round}
use igame.Round.Funds.{is_over, refund_round-over, refund_round-keeps}
use mathlib.Core.Path.{subst}
use igame.Round.Recovery.{
  stuck_rounds, is_orphaned, committed, recover_round, recover_loop, recover_orphaned_rounds,
  has_orphan, Fate,
}

committed-eq-ok :
    {A : Type 0} (t : Tables) (r : Result PostError A) {a : A} → committed t r ≡ ok a → r ≡ ok a
committed-eq-ok t (ok a) h = ap ok (ok-injective {E = Tables × PostError} h)
committed-eq-ok t (err e) h = cc h

-- What the refund of a round went through.
recover_round-eq-ok :
    (id : ℕ) (rest : Tables → Result (Tables × PostError) (List ℕ × Tables)) (t : Tables)
    {ids : List ℕ} {t' : Tables}
    → recover_round id rest t ≡ ok (ids, t')
    → (n : ℕ) × (t1 : Tables) × (later : List ℕ) × (refund_round t id "crash_recovery" ≡ ok (n, t1))
      × (rest t1 ≡ ok (later, t'))
recover_round-eq-ok id rest t {ids} {t'} h =
    let ((n, t1), refunded, more) =
      >>=-eq-ok (committed t (refund_round t id "crash_recovery")) _ h in
    let ((later, t2), ran, same) = >>=-eq-ok (rest t1) _ more in
    let last : t2 ≡ t' =
      ap (λ (r : List ℕ × Tables). r.1) (ok-injective {E = Tables × PostError} same) in
    let so_far : Tables → Result (Tables × PostError) (List ℕ × Tables) = λ x. ok (later, x) in
    (
      n,
      t1,
      later,
      committed-eq-ok t (refund_round t id "crash_recovery") refunded,
      ran ∙ ap so_far last,
    )

refund_round-stays_over :
    (t : Tables) (id n k : ℕ) (t1 : Tables)
    → refund_round t id "crash_recovery" ≡ ok (n, t1)
    → is_over (find_round k t.rounds) ≡ true
    → is_over (find_round k t1.rounds) ≡ true
refund_round-stays_over t id n k t1 e over = elim (Bool-cases (id == k)) [
  | inl same ↦
      let own : id ≡ k = ground (arith, same) in
      subst (λ (x : ℕ). is_over (find_round x t1.rounds) ≡ true) own
        (refund_round-over t id "crash_recovery" n t1 e)
  | inr other ↦ ap is_over (refund_round-keeps t id "crash_recovery" n t1 k other e) ∙ over
]

Fate-from :
    (k : ℕ) (orphan : Bool) (t t1 t' : Tables)
    → find_round k t1.rounds ≡ find_round k t.rounds
    → Fate orphan k t1 t'
    → Fate orphan k t t'
Fate-from k true t t1 t' e h = h
Fate-from k false t t1 t' e h = h ∙ e

module _ (lock_held : ℕ → Bool) (rounds : List RoundRow) (k : ℕ) where
  stays_over :
      (stuck : List RoundRow) (t : Tables) {ids : List ℕ} {t' : Tables}
      → recover_loop lock_held rounds stuck t ≡ ok (ids, t')
      → is_over (find_round k t.rounds) ≡ true
      → is_over (find_round k t'.rounds) ≡ true
  unfolding recover_loop
  stays_over [] t h over =
      subst (λ (r : List ℕ × Tables). is_over (find_round k r.1.rounds) ≡ true)
        (ok-injective {E = Tables × PostError} h) over
  stays_over (r ∷ rest) t h over = elim (Bool-cases (is_orphaned lock_held rounds r)) [
    | inr owned ↦ stays_over rest t (rw owned at h) over
    | inl orphan ↦
        let (n, t1, later, refunded, ran) =
          recover_round-eq-ok r.id (recover_loop lock_held rounds rest) t (rw orphan at h) in
        stays_over rest t1 ran (refund_round-stays_over t r.id n k t1 refunded over)
  ]

  recover_loop-Fate :
      (stuck : List RoundRow) (t : Tables) {ids : List ℕ} {t' : Tables}
      → recover_loop lock_held rounds stuck t ≡ ok (ids, t')
      → Fate (has_orphan lock_held rounds k stuck) k t t'
  unfolding recover_loop has_orphan
  recover_loop-Fate [] t h = sym (
      ap (λ (r : List ℕ × Tables). find_round k r.1.rounds)
        (ok-injective {E = Tables × PostError} h))
  recover_loop-Fate (r ∷ rest) t {ids} {t'} h = elim (Bool-cases (is_orphaned lock_held rounds r)) [
    | inr owned ↦ elim (Bool-cases (r.id == k)) [
      | inl own ↦ rw (own, owned) (recover_loop-Fate rest t (rw owned at h))
      | inr other ↦ rw other (recover_loop-Fate rest t (rw owned at h))
    ]
    | inl orphan ↦
        let (n, t1, later, refunded, ran) =
          recover_round-eq-ok r.id (recover_loop lock_held rounds rest) t (rw orphan at h) in
        elim (Bool-cases (r.id == k)) [
          | inl own ↦
              let same : r.id ≡ k = ground (arith, own) in
              rw (own, orphan)
                (stays_over rest t1 ran (
                  subst (λ (x : ℕ). is_over (find_round x t1.rounds) ≡ true) same
                    (refund_round-over t r.id "crash_recovery" n t1 refunded)))
          | inr other ↦ rw other (
              Fate-from k (has_orphan lock_held rounds k rest) t t1 t'
                (refund_round-keeps t r.id "crash_recovery" n t1 k other refunded)
                (recover_loop-Fate rest t1 ran))
        ]
  ]

-- A sweep that does not raise, when it ends: each round that was orphaned is over, and every other round is as it was.
pub recover_orphaned_rounds-Fate :
    (lock_held : ℕ → Bool) (t : Tables) (k : ℕ) {ids : List ℕ} {t' : Tables}
    → recover_orphaned_rounds lock_held t ≡ ok (ids, t')
    → Fate (has_orphan lock_held t.rounds k (stuck_rounds t.rounds)) k t t'
unfolding recover_orphaned_rounds
recover_orphaned_rounds-Fate lock_held t k h =
    recover_loop-Fate lock_held t.rounds k (stuck_rounds t.rounds) t h

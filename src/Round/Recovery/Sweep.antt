-- ===== src/Round/Recovery/Sweep.antt =====
-- What the sweep does to the rounds that nobody runs any more, by their rows alone (services/engine/recovery.py).
use igame.Common.{
  ℕ, ◌≤◌, ◌<◌, ◌≡◌, refl, ap, ◌∙◌, ◌⊎◌, Bool, true, false, ◌&&◌, ◌||◌, List, [], ◌∷◌, arith, ◌==◌,
  ltb, Bool-cases, inl, inr,
}
use igame.Common.Result.{ok}
use igame.Round.{Status, idle, lobby, running, settling, done, voided}
use igame.Round.Join.{RoundRow, Tables, latest_seq}
use igame.Round.Settle.{find_round}
use igame.Round.Funds.{is_over}
use igame.Round.Recovery.{
  is_non_terminal, stuck_rounds, is_orphaned, recover_orphaned_rounds, has_orphan, Fate,
}
use igame.Round.Recovery.Orphans.{recover_orphaned_rounds-Fate}

-- A row is one of the table.
abbrev pub Holds : List RoundRow → RoundRow → Type 0
Holds [] r = ⊥
Holds (x ∷ rest) r = (x ≡ r) ⊎ Holds rest r

-- A round that has begun and has not ended.
abbrev IsOpen : Status → Type 0
IsOpen lobby = Unit
IsOpen running = Unit
IsOpen settling = Unit
IsOpen _ = ⊥

-- The room has a later round.
abbrev IsSuperseded : List RoundRow → RoundRow → Type 0
IsSuperseded rounds r =
    (newer : RoundRow) × Holds rounds newer × (newer.room_id ≡ r.room_id) × (r.seq < newer.seq)

-- No engine will bring the round to its end.
abbrev pub IsOrphaned : (ℕ → Bool) → List RoundRow → RoundRow → Type 0
IsOrphaned lock_held rounds r =
    IsOpen r.status × (IsSuperseded rounds r ⊎ (lock_held r.room_id ≡ false))

is_non_terminal_iff :
    (s : Status) → (IsOpen s → is_non_terminal s ≡ true) × (is_non_terminal s ≡ true → IsOpen s)
is_non_terminal_iff idle = ((λ h. absurd h), (λ h. cc h))
is_non_terminal_iff lobby = ((λ h. refl), (λ h. tt))
is_non_terminal_iff running = ((λ h. refl), (λ h. tt))
is_non_terminal_iff settling = ((λ h. refl), (λ h. tt))
is_non_terminal_iff done = ((λ h. absurd h), (λ h. cc h))
is_non_terminal_iff voided = ((λ h. absurd h), (λ h. cc h))

or_true : (b : Bool) → (b || true) ≡ true
or_true true = refl
or_true false = refl

seq-le-latest :
    (x : RoundRow) (room : ℕ) (rounds : List RoundRow)
    → Holds rounds x
    → x.room_id ≡ room
    → x.seq ≤ latest_seq room rounds
unfolding latest_seq
seq-le-latest x room [] m e = absurd m
seq-le-latest x room (r ∷ rest) m e = elim m [
  | inl same ↦
      let own : r.seq ≡ x.seq = ap (λ (q : RoundRow). q.seq) same in
      let here : r.room_id ≡ room = ap (λ (q : RoundRow). q.room_id) same ∙ e in
      ground (arith, own, here)
  | inr later ↦ ground (arith, seq-le-latest x room rest later e)
]

latest-found :
    (n room : ℕ) (rounds : List RoundRow)
    → n < latest_seq room rounds
    → (newer : RoundRow) × Holds rounds newer × (newer.room_id ≡ room) × (n < newer.seq)
unfolding latest_seq
latest-found n room [] h = absurd (omega (arith, h))
latest-found n room (r ∷ rest) h =
    elim (Bool-cases (r.room_id == room && ltb (latest_seq room rest) r.seq)) [
      | inl own ↦ (r, inl refl, ground (arith, own), rw own at h)
      | inr other ↦
          let (newer, m, there, later) = latest-found n room rest (rw other at h) in
          (newer, inr m, there, later)
    ]

module _ (lock_held : ℕ → Bool) (rounds : List RoundRow) where
  orphaned_is_found :
      (r : RoundRow)
      → IsSuperseded rounds r ⊎ (lock_held r.room_id ≡ false)
      → is_orphaned lock_held rounds r ≡ true
  unfolding is_orphaned
  orphaned_is_found r (inr free) = ground (arith, free)
  orphaned_is_found r (inl (newer, m, there, later)) =
      let below : newer.seq ≤ latest_seq r.room_id rounds =
        seq-le-latest newer r.room_id rounds m there in
      ground (arith, below, later)

  found_is_orphaned :
      (r : RoundRow)
      → Holds rounds r
      → is_orphaned lock_held rounds r ≡ true
      → IsSuperseded rounds r ⊎ (lock_held r.room_id ≡ false)
  unfolding is_orphaned
  found_is_orphaned r m h = elim (Bool-cases (lock_held r.room_id)) [
    | inr free ↦ inr free
    | inl held ↦
        let below : r.seq ≤ latest_seq r.room_id rounds = seq-le-latest r r.room_id rounds m refl in
        inl (latest-found r.seq r.room_id rounds (ground (arith, held, below, h)))
  ]

  has_orphan-in :
      (r : RoundRow) (rows : List RoundRow)
      → Holds rows r
      → IsOrphaned lock_held rounds r
      → has_orphan lock_held rounds r.id (stuck_rounds rows) ≡ true
  unfolding has_orphan stuck_rounds
  has_orphan-in r [] m h = absurd m
  has_orphan-in r (x ∷ rest) m (is_open, lost) = elim m [
    | inl same ↦
        let gone : is_orphaned lock_held rounds x ≡ true =
          ap (is_orphaned lock_held rounds) same ∙ orphaned_is_found r lost in
        let stuck : is_non_terminal x.status ≡ true =
          ap (λ (q : RoundRow). is_non_terminal q.status) same
          ∙ (is_non_terminal_iff r.status).0 is_open in
        let own : x.id ≡ r.id = ap (λ (q : RoundRow). q.id) same in
        let is_id : x.id == r.id ≡ true = ground (arith, own) in rw (stuck, is_id, gone) refl
    | inr later ↦
        let rest_has = has_orphan-in r rest later (is_open, lost) in
        elim (Bool-cases (is_non_terminal x.status)) [
          | inl stuck ↦
              rw (stuck, rest_has) (or_true (x.id == r.id && is_orphaned lock_held rounds x))
          | inr over ↦ rw over rest_has
        ]
  ]

  has_orphan-none :
      (k : ℕ) (rows : List RoundRow)
      → ((r : RoundRow) → Holds rows r → Holds rounds r)
      → ((r : RoundRow) → Holds rows r → r.id ≡ k → ¬ IsOrphaned lock_held rounds r)
      → has_orphan lock_held rounds k (stuck_rounds rows) ≡ false
  unfolding has_orphan stuck_rounds
  has_orphan-none k [] all none = refl
  has_orphan-none k (x ∷ rest) all none =
      let rest_none = has_orphan-none k rest (λ r m. all r (inr m)) (λ r m. none r (inr m)) in
      elim (Bool-cases (is_non_terminal x.status)) [
        | inr over ↦ rw over rest_none
        | inl stuck ↦
            rw (stuck, rest_none)
              (elim (Bool-cases (x.id == k)) [
                | inr other ↦ rw other refl
                | inl own ↦ elim (Bool-cases (is_orphaned lock_held rounds x)) [
                  | inr kept ↦ rw (own, kept) refl
                  | inl gone ↦ absurd (
                      none x (inl refl) (ground (arith, own)) (
                        (is_non_terminal_iff x.status).1 stuck,
                        found_is_orphaned x (all x (inl refl)) gone,
                      ))
                ]
              ])
      ]

Fate-over :
    (orphan : Bool) (k : ℕ) (t t' : Tables)
    → orphan ≡ true
    → Fate orphan k t t'
    → is_over (find_round k t'.rounds) ≡ true
Fate-over true k t t' e h = h
Fate-over false k t t' e h = cc e

Fate-same :
    (orphan : Bool) (k : ℕ) (t t' : Tables)
    → orphan ≡ false
    → Fate orphan k t t'
    → find_round k t'.rounds ≡ find_round k t.rounds
Fate-same true k t t' e h = cc e
Fate-same false k t t' e h = h

-- A sweep that does not raise, when it ends: each open round whose room has a later round, or whose room nobody
-- has locked, is over; and a round is as it was when no row of its number is such a round.
pub recover_orphaned_rounds-IsOrphaned :
    (lock_held : ℕ → Bool) (t : Tables) {ids : List ℕ} {t' : Tables}
    → recover_orphaned_rounds lock_held t ≡ ok (ids, t')
    → ((r : RoundRow)
        → Holds t.rounds r
        → IsOrphaned lock_held t.rounds r
        → is_over (find_round r.id t'.rounds) ≡ true)
      × ((k : ℕ)
          → ((r : RoundRow) → Holds t.rounds r → r.id ≡ k → ¬ IsOrphaned lock_held t.rounds r)
          → find_round k t'.rounds ≡ find_round k t.rounds)
recover_orphaned_rounds-IsOrphaned lock_held t {ids} {t'} h = (
  λ r m lost.
      Fate-over (has_orphan lock_held t.rounds r.id (stuck_rounds t.rounds)) r.id t t'
        (has_orphan-in lock_held t.rounds r t.rounds m lost)
        (recover_orphaned_rounds-Fate lock_held t r.id h),
  λ k none.
      Fate-same (has_orphan lock_held t.rounds k (stuck_rounds t.rounds)) k t t'
        (has_orphan-none lock_held t.rounds k t.rounds (λ r m. m) none)
        (recover_orphaned_rounds-Fate lock_held t k h),
)

-- ===== src/Round/Winners.antt =====
-- Who can win a round (services/engine/round_engine.py): every pending winner has a card that wins on
-- the numbers called, no card is pending twice, and none is locked out.
use mathlib.Core.Path.{subst}
use mathlib.Core.Bool.{false≢true}
use igame.Common.{
  ℕ, ◌≡◌, refl, ap, sym, ◌∙◌, Bool, true, false, ◌&&◌, ◌||◌, not, some, List, [], ◌∷◌, ◌++◌, arith,
  ◌==◌, leb, Bool-cases, Option-cases, inl, inr, length, get_elem?,
}
use igame.Common.Result.{Result, ok, err, ◌>>=◌, >>=-eq-ok, ok-injective}
use igame.Bingo.{Grid, Pattern, winning_patterns, has_won}
use igame.Bingo.Lines.{has_won-monotone}
use igame.Round.{
  running, settling, same_status, RoomConfig, RoundEntryState, PendingWinner, Engine, has_key,
  find_entry,
}
use igame.Round.Claim.{
  Source, auto, ClaimResult, LookupError, CardPool, card_of, is_pending, in_window, register,
  no_pattern, check_card, claim, auto_claim, scan, add_call, call_next_number, is_manual,
  no_patterns, after_claim,
}

module _ (room : RoomConfig) (pool : CardPool) where
  -- The card of each winner wins on the numbers called.
  abbrev pub AllWon : List ℕ → List PendingWinner → Type 0
  AllWon called [] = Unit
  AllWon called (w ∷ ws) =
      ((grid : Grid) × (card_of w.card_no pool ≡ some grid)
        × (has_won grid called room.win_patterns room.min_winning_lines ≡ true))
      × AllWon called ws

  -- No card is pending twice, and none is locked out.
  abbrev pub EachOnce : List (ℕ × ℕ) → List PendingWinner → Type 0
  EachOnce locked [] = Unit
  EachOnce locked (w ∷ ws) =
      (is_pending w.user_id w.card_no ws ≡ false)
      × (has_key w.user_id w.card_no locked ≡ false)
      × EachOnce locked ws

  pub record WinnersAreWf (engine : Engine) : Type 0 where
    pub all_won : AllWon engine.called engine.pending_winners
    pub each_once : EachOnce engine.locked_out engine.pending_winners
    pub none_yet : same_status engine.status running ≡ true → engine.pending_winners ≡ []

  AllWon-more :
      (called : List ℕ) (number : ℕ) (ws : List PendingWinner)
      → AllWon called ws
      → AllWon (number ∷ called) ws
  AllWon-more called number [] h = tt
  AllWon-more called number (w ∷ ws) ((grid, c, won), rest) = (
    (
      grid,
      c,
      has_won-monotone grid called (number ∷ called) room.win_patterns room.min_winning_lines
          (λ a h. ground (arith, h)) won,
    ),
    AllWon-more called number ws rest,
  )

  AllWon-append :
      (called : List ℕ) (w : PendingWinner) (grid : Grid) (ws : List PendingWinner)
      → AllWon called ws
      → card_of w.card_no pool ≡ some grid
      → has_won grid called room.win_patterns room.min_winning_lines ≡ true
      → AllWon called (ws ++ w ∷ [])
  AllWon-append called w grid [] h c e = ((grid, c, e), tt)
  AllWon-append called w grid (x ∷ ws) h c e = (h.0, AllWon-append called w grid ws h.1 c e)

  is_pending-append :
      (u c : ℕ) (w : PendingWinner) (ws : List PendingWinner)
      → is_pending u c (ws ++ w ∷ []) ≡ (is_pending u c ws || (w.user_id == u && w.card_no == c))
  unfolding is_pending
  is_pending-append u c w [] = ground arith
  is_pending-append u c w (x ∷ ws) = ground (arith, is_pending-append u c w ws)

  EachOnce-append :
      (locked : List (ℕ × ℕ)) (w : PendingWinner) (ws : List PendingWinner)
      → EachOnce locked ws
      → is_pending w.user_id w.card_no ws ≡ false
      → has_key w.user_id w.card_no locked ≡ false
      → EachOnce locked (ws ++ w ∷ [])
  unfolding is_pending
  EachOnce-append locked w [] h p k = (refl, k, tt)
  EachOnce-append locked w (x ∷ ws) h p k = (
    ground (arith, h.0, p, is_pending-append x.user_id x.card_no w ws),
    h.1,
    EachOnce-append locked w ws h.2 (ground (arith, p)) k,
  )

  register-WinnersAreWf :
      (engine : Engine) (u c : ℕ) (won : List Pattern) (now : ℕ) (grid : Grid)
      → WinnersAreWf engine
      → card_of c pool ≡ some grid
      → has_won grid engine.called room.win_patterns room.min_winning_lines ≡ true
      → has_key u c engine.locked_out ≡ false
      → WinnersAreWf (register engine u c won now).1
  unfolding register
  register-WinnersAreWf engine u c won now grid w card wins free =
      elim (Bool-cases (is_pending u c engine.pending_winners)) [
        | inl p ↦ rw p w
        | inr p ↦
            let winner : PendingWinner = record {
              user_id = u;
              card_no = c;
              patterns = won;
              call_index = engine.call_index;
            } in
            let won' =
              AllWon-append engine.called winner grid engine.pending_winners w.all_won card wins in
            let once' =
              EachOnce-append engine.locked_out winner engine.pending_winners w.each_once p free in
            elim (Bool-cases (same_status engine.status running)) [
              | inl r ↦
                  rw (p, r)
                    (record {
                      all_won = won';
                      each_once = once';
                      none_yet = λ h. absurd (false≢true h);
                    })
              | inr r ↦
                  elim (Bool-cases (
                    same_status engine.status settling
                    && in_window engine.winner_window_deadline now)) [
                      | inl s ↦
                          rw (p, r, s)
                            (record {
                              all_won = won';
                              each_once = once';
                              none_yet = λ h. absurd (false≢true (sym r ∙ h));
                            })
                      | inr s ↦ rw (p, r, s) w
                    ]
            ]
      ]

  EachOnce-lock :
      (u c : ℕ) (locked : List (ℕ × ℕ)) (ws : List PendingWinner)
      → ws ≡ []
      → EachOnce ((u, c) ∷ locked) ws
  EachOnce-lock u c locked ws h = subst (EachOnce ((u, c) ∷ locked)) (sym h) tt

  no_pattern-WinnersAreWf :
      (engine : Engine) (u c : ℕ) (won : List Pattern) (source : Source)
      → WinnersAreWf engine
      → WinnersAreWf (no_pattern engine u c won source).1
  unfolding no_pattern
  no_pattern-WinnersAreWf engine u c won source w =
      elim (Bool-cases (is_manual source && same_status engine.status running && no_patterns won)) [
        | inr n ↦ rw n w
        | inl y ↦ rw y (record {
          all_won = w.all_won;
          each_once =
              EachOnce-lock u c engine.locked_out engine.pending_winners
                (w.none_yet (ground (arith, y)));
          none_yet = w.none_yet;
        })
      ]

  check_card-WinnersAreWf :
      (engine : Engine) (grid : Grid) (u c : ℕ) (source : Source) (now : ℕ)
      → WinnersAreWf engine
      → card_of c pool ≡ some grid
      → has_key u c engine.locked_out ≡ false
      → WinnersAreWf (check_card room engine grid u c source now).1
  unfolding check_card has_won
  check_card-WinnersAreWf engine grid u c source now w card free =
      let won = winning_patterns grid engine.called room.win_patterns in
      elim (Bool-cases (leb room.min_winning_lines (length won))) [
        | inl y ↦ rw y (register-WinnersAreWf engine u c won now grid w card y free)
        | inr n ↦ rw n (no_pattern-WinnersAreWf engine u c won source w)
      ]

  -- What an answer leaves.
  abbrev Keeps : Result LookupError (ClaimResult × Engine) → Type 0
  Keeps (ok (result, engine)) = WinnersAreWf engine
  Keeps (err e) = Unit

  abbrev Leaves : Result LookupError Engine → Type 0
  Leaves (ok engine) = WinnersAreWf engine
  Leaves (err e) = Unit

  claim-Keeps :
      (engine : Engine) (u c : ℕ) (source : Source) (now : ℕ)
      → WinnersAreWf engine
      → Keeps (claim room pool engine u c source now)
  unfolding claim
  claim-Keeps engine u c source now w = elim (Bool-cases (has_key u c engine.locked_out)) [
    | inl locked ↦ rw locked w
    | inr free ↦ elim (Option-cases (find_entry u c engine.entries)) [
      | inl e ↦ rw (free, e) w
      | inr (entry, e) ↦
          elim (Bool-cases
            (not (same_status engine.status running || same_status engine.status settling))) [
              | inl s ↦ rw (free, e, s) w
              | inr s ↦ elim (Option-cases (card_of c pool)) [
                | inl n ↦ rw (free, e, s, n) tt
                | inr (grid, card) ↦
                    rw (free, e, s, card)
                      (check_card-WinnersAreWf engine grid u c source now w card free)
              ]
            ]
    ]
  ]

  leave :
      (engine : Engine) (r : Result LookupError (ClaimResult × Engine))
      → WinnersAreWf engine
      → Keeps r
      → WinnersAreWf (after_claim engine r)
  leave engine (ok a) w h = h
  leave engine (err e) w h = w

  -- A field that the invariant does not read.
  mark_claimed :
      (engine : Engine) (keys : List (ℕ × ℕ))
      → WinnersAreWf engine
      → WinnersAreWf (record engine { auto_claimed = keys })
  mark_claimed engine keys w = record {
    all_won = w.all_won;
    each_once = w.each_once;
    none_yet = w.none_yet;
  }

  auto_claim-Leaves :
      (now : ℕ) (e : RoundEntryState) (engine : Engine)
      → WinnersAreWf engine
      → Leaves (auto_claim room pool now e engine)
  unfolding auto_claim
  auto_claim-Leaves now e engine w =
      elim (Bool-cases (
        not e.auto_mark
        || has_key e.user_id e.card_no engine.auto_claimed
        || has_key e.user_id e.card_no engine.locked_out)) [
          | inl skip ↦ rw skip w
          | inr go ↦ elim (Option-cases (card_of e.card_no pool)) [
            | inl n ↦ rw (go, n) tt
            | inr (grid, card) ↦
                elim (Bool-cases
                  (has_won grid engine.called room.win_patterns room.min_winning_lines)) [
                    | inr no_win ↦ rw (go, card, no_win) w
                    | inl wins ↦
                        let claimed : Engine = record engine {
                          auto_claimed = (e.user_id, e.card_no) ∷ engine.auto_claimed;
                        } in
                        rw (go, card, wins)
                          (leave engine (claim room pool claimed e.user_id e.card_no auto now) w (
                            claim-Keeps claimed e.user_id e.card_no auto now (
                              mark_claimed engine ((e.user_id, e.card_no) ∷ engine.auto_claimed)
                                w)))
                  ]
          ]
        ]

  scan-Leaves :
      (now : ℕ) (es : List RoundEntryState) (engine : Engine)
      → WinnersAreWf engine
      → Leaves (scan room pool now es engine)
  unfolding scan
  scan-Leaves now [] engine w = w
  scan-Leaves now (e ∷ es) engine w =
      after (auto_claim room pool now e engine) (auto_claim-Leaves now e engine w)
        (scan-Leaves now es)
    where
      after :
          (r : Result LookupError Engine)
          → Leaves r
          → ((next : Engine) → WinnersAreWf next → Leaves (scan room pool now es next))
          → Leaves (r >>= λ next. scan room pool now es next)
      after (ok next) h ih = ih next h
      after (err x) h ih = tt

goes_on_with : Engine → Result LookupError (Bool × Engine)
goes_on_with next = ok (true, next)

-- A claim, accepted or refused, keeps the winners right: each pending winner's card wins on the numbers
-- called, none is pending twice or locked out, and none is pending while the round still runs.
pub claim-WinnersAreWf :
    (room : RoomConfig) (pool : CardPool) (engine : Engine) (u c : ℕ) (source : Source) (now : ℕ)
    {result : ClaimResult} {engine' : Engine}
    → WinnersAreWf room pool engine
    → claim room pool engine u c source now ≡ ok (result, engine')
    → WinnersAreWf room pool engine'
claim-WinnersAreWf room pool engine u c source now w e =
    subst (Keeps room pool) e (claim-Keeps room pool engine u c source now w)

-- So does the call of a number, with all the automatic claims that it sets off.
pub call_next_number-WinnersAreWf :
    (room : RoomConfig) (pool : CardPool) (is_running : Bool) (engine : Engine) (now : ℕ)
    {goes_on : Bool} {engine' : Engine}
    → WinnersAreWf room pool engine
    → call_next_number room pool is_running engine now ≡ ok (goes_on, engine')
    → WinnersAreWf room pool engine'
unfolding call_next_number goes_on_with
call_next_number-WinnersAreWf room pool is_running engine now {goes_on} {engine'} w e =
    elim (Option-cases (get_elem? engine.draw_order engine.call_index)) [
      | inl n ↦ absurd (ground arith)
      | inr (number, h) ↦
          let called : WinnersAreWf room pool (add_call engine number) = record {
            all_won = AllWon-more room pool engine.called number engine.pending_winners w.all_won;
            each_once = w.each_once;
            none_yet = w.none_yet;
          } in
          go number h called
    ]
  where
    go :
        (number : ℕ)
        → get_elem? engine.draw_order engine.call_index ≡ some number
        → WinnersAreWf room pool (add_call engine number)
        → WinnersAreWf room pool engine'
    go number h called = elim (Bool-cases is_running) [
      | inl yes_running ↦
          let call : (scan room pool now engine.entries (add_call engine number) >>= goes_on_with)
              ≡ ok (goes_on, engine') =
            ground arith in
          let (next, scanned, same) =
            >>=-eq-ok (scan room pool now engine.entries (add_call engine number)) goes_on_with
              call in
          subst (WinnersAreWf room pool) (ap (λ (x : Bool × Engine). x.1) (ok-injective same)) (
            subst (Leaves room pool) scanned
              (scan-Leaves room pool now engine.entries (add_call engine number) called))
      | inr stopped ↦
          let call : ◌≡◌ {A = Result LookupError (Bool × Engine)}
              (ok (false, add_call engine number)) (ok (goes_on, engine')) =
            ground arith in
          subst (WinnersAreWf room pool) (ap (λ (x : Bool × Engine). x.1) (ok-injective call))
            called
    ]

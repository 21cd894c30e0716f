-- ===== src/Round/Cards.antt =====
-- What holds of a round through joins and drops (services/engine/round_engine.py): the pot, the cards
-- and the players.
use mathlib.Core.Path.{subst}
use igame.Common.{
  ℕ, ◌≤◌, ◌≡◌, refl, ap, sym, ◌∙◌, Bool, true, false, ◌&&◌, not, none, some, List, [], ◌∷◌, ◌++◌,
  arith, ◌==◌, ==_iff, leb, if◌then◌else◌, Bool-cases, Option-cases, inl, inr, ◌≢◌,
}
use igame.Common.Int.{◌+ℤ◌, int_laws}
use igame.Common.Counts.{contains}
use igame.Common.Result.{Result, ok, err}
use igame.ResponsibleGaming.{PlayBlock}
use igame.Ledger.{LedgerTransaction}
use igame.Ledger.Post.{
  PostError, no_entries, unknown_kind, idempotency_key_conflict, no_such_account,
  insufficient_funds, unbalanced,
}
use igame.Ledger as L
use igame.Round.{
  idle, lobby, same_status, RoomConfig, RoundEntryState, Engine, has_key, find_entry, cards_held,
  player_count, fresh_engine,
}
use igame.Round.Join.{
  EntryRow, Tables, JoinResult, Answer, round_status, is_lobby, card_taken, put_entry, entry_of,
  finish_join, post_stake, join_transaction, join_lobby, start_if_idle, join,
}
use igame.Round.Drop.{has_row, finish_drop, post_drop, drop_card}
use igame.Round.Entries.{
  Distinct, Backed, staked, Backed-has, put-append, Distinct-append, staked-append,
  cards_held-append, player_count-append, card_taken-append, Backed-more, Backed-append,
  Backed-remove, Distinct-remove, staked-remove, cards_held-remove, player_count-found,
}

pub record RoundIsWf (room : RoomConfig) (engine : Engine) (t : Tables) : Type 0 where
  pub distinct : Distinct engine.entries
  pub backed : Backed engine.round_id t.round_entries engine.entries
  pub one_stake_each : engine.total_pot ≡ staked room.stake engine.entries
  pub cards_fit : (u : ℕ) → cards_held u engine.entries ≤ room.max_cards_per_player
  pub players_fit : player_count engine.entries ≤ room.max_players

module _ (room : RoomConfig) where
  -- An answer leaves a well-formed round.
  abbrev Keeps : Answer → Type 0
  Keeps (ok (result, engine, t)) = RoundIsWf room engine t
  Keeps (err e) = Unit

  if-Keeps :
      (b : Bool) (x y : Answer)
      → (b ≡ true → Keeps x)
      → (b ≡ false → Keeps y)
      → Keeps (if b then x else y)
  if-Keeps true x y hx hy = hx refl
  if-Keeps false x y hx hy = hy refl

  cards_after :
      (es : List RoundEntryState) (e : RoundEntryState) (a : ℕ)
      → ((x : ℕ) → cards_held x es ≤ room.max_cards_per_player)
      → leb room.max_cards_per_player (cards_held e.user_id es) ≡ false
      → cards_held a (es ++ e ∷ []) ≤ room.max_cards_per_player
  cards_after es e a fit h = elim (Bool-cases (e.user_id == a)) [
    | inl same ↦
        let eq : e.user_id ≡ a = (==_iff e.user_id a).0 same in
        let agree = ap (λ (x : ℕ). cards_held x es) eq in
        ground (arith, h, same, agree, cards_held-append a e es)
    | inr other ↦ ground (arith, other, fit a, cards_held-append a e es)
  ]

  finish_join-Keeps :
      (engine : Engine) (t : Tables) (u c : ℕ) (auto : Bool)
      (r : Result PostError (LedgerTransaction × L.Db))
      → RoundIsWf room engine t
      → card_taken engine.round_id c t.round_entries ≡ false
      → (cards_held u engine.entries == 0 && leb room.max_players (player_count engine.entries))
        ≡ false
      → leb room.max_cards_per_player (cards_held u engine.entries) ≡ false
      → Keeps (finish_join room engine t u c auto r)
  unfolding finish_join
  finish_join-Keeps engine t u c auto (err no_entries) w free fits_room fits = tt
  finish_join-Keeps engine t u c auto (err (unknown_kind _)) w free fits_room fits = tt
  finish_join-Keeps engine t u c auto (err (idempotency_key_conflict _ _ _)) w free fits_room fits =
      tt
  finish_join-Keeps engine t u c auto (err (no_such_account _)) w free fits_room fits = tt
  finish_join-Keeps engine t u c auto (err (insufficient_funds _ _)) w free fits_room fits = w
  finish_join-Keeps engine t u c auto (err (unbalanced _)) w free fits_room fits = tt
  finish_join-Keeps engine t u c auto (ok (txn, ledger)) w free fits_room fits =
      let new = Backed-has engine.round_id c t.round_entries engine.entries w.backed free in
      let e : RoundEntryState = entry_of u c auto in
      let appended : put_entry e engine.entries ≡ engine.entries ++ e ∷ [] =
        put-append e engine.entries new in
      let row : EntryRow = record {
        round_id = engine.round_id;
        card_no = c;
        user_id = u;
        auto_mark = auto;
        stake_txn_id = some txn.id;
      } in
      record {
        distinct = subst Distinct (sym appended) (Distinct-append e engine.entries new w.distinct);
        backed = subst (Backed engine.round_id (t.round_entries ++ row ∷ [])) (sym appended) (
            Backed-append engine.round_id (t.round_entries ++ row ∷ []) e engine.entries
              (Backed-more engine.round_id row t.round_entries engine.entries w.backed)
              (ground (arith, card_taken-append engine.round_id c row t.round_entries)));
        one_stake_each =
            subst
              (λ (es : List RoundEntryState). engine.total_pot +ℤ room.stake ≡ staked room.stake es)
              (sym appended)
              (grind (int_laws, w.one_stake_each, staked-append room.stake e engine.entries));
        cards_fit = λ a.
            subst (λ (es : List RoundEntryState). cards_held a es ≤ room.max_cards_per_player)
              (sym appended) (cards_after engine.entries e a w.cards_fit fits);
        players_fit =
            subst (λ (es : List RoundEntryState). player_count es ≤ room.max_players) (sym appended)
              (ground (arith, w.players_fit, fits_room, player_count-append e engine.entries));
      }

  finish_drop-Keeps :
      (engine : Engine) (t : Tables) (u c : ℕ) (r : Result PostError (LedgerTransaction × L.Db))
      → RoundIsWf room engine t
      → find_entry u c engine.entries ≢ none
      → Keeps (finish_drop room engine t u c r)
  unfolding finish_drop
  finish_drop-Keeps engine t u c (err e) w f = tt
  finish_drop-Keeps engine t u c (ok (txn, ledger)) w f = record {
    distinct = Distinct-remove u c engine.entries w.distinct;
    backed = Backed-remove engine.round_id u c t.round_entries engine.entries w.distinct w.backed f;
    one_stake_each =
        grind (int_laws, w.one_stake_each, staked-remove room.stake u c engine.entries f);
    cards_fit = λ a. omega (arith, w.cards_fit a, cards_held-remove a u c engine.entries);
    players_fit = omega (arith, w.players_fit, player_count-found u c engine.entries f);
  }

  join_lobby-Keeps :
      (block : PlayBlock) (engine : Engine) (t : Tables) (u c : ℕ) (auto : Bool)
      → RoundIsWf room engine t
      → Keeps (join_lobby room block engine t u c auto)
  unfolding join_lobby join_transaction post_stake
  join_lobby-Keeps block engine t u c auto w =
      if-Keeps (has_key u c engine.dropped_this_round) _ _ (λ h. w)
        (λ h1.
          if-Keeps
            (cards_held u engine.entries == 0 && leb room.max_players (player_count engine.entries))
            _ _ (λ h. w)
            (λ fits_room.
              if-Keeps (leb room.max_cards_per_player (cards_held u engine.entries)) _ _ (λ h. w)
                (λ fits.
                  if-Keeps (not (is_lobby (round_status engine.round_id t.rounds))) _ _ (λ h. w)
                    (λ h2.
                      if-Keeps block.blocked _ _ (λ h. w)
                        (λ h3.
                          if-Keeps (card_taken engine.round_id c t.round_entries) _ _ (λ h. w)
                            (λ free.
                              finish_join-Keeps engine t u c auto _ w free fits_room fits))))))

  fresh-RoundIsWf :
      (engine : Engine) (t : Tables) (id : ℕ) → RoundIsWf room (fresh_engine id engine) t
  unfolding fresh_engine staked cards_held player_count
  fresh-RoundIsWf engine t id = record {
    distinct = tt;
    backed = tt;
    one_stake_each = refl;
    cards_fit = λ a. omega arith;
    players_fit = omega arith;
  }

  start_if_idle-RoundIsWf :
      (engine : Engine) (t : Tables)
      → RoundIsWf room engine t
      → RoundIsWf room (start_if_idle room engine t).0 (start_if_idle room engine t).1
  unfolding start_if_idle
  start_if_idle-RoundIsWf engine t w = elim (Bool-cases (same_status engine.status idle)) [
    | inl h ↦ rw h (fresh-RoundIsWf engine _ _)
    | inr h ↦ rw h w
  ]

  join-Keeps :
      (card_pool : List ℕ) (block : PlayBlock) (engine : Engine) (t : Tables) (u c : ℕ)
      (auto : Bool)
      → RoundIsWf room engine t
      → Keeps (join room card_pool block engine t u c auto)
  unfolding join
  join-Keeps card_pool block engine t u c auto w =
      let (engine', t') = start_if_idle room engine t in
      let w' = start_if_idle-RoundIsWf engine t w in
      if-Keeps (not (same_status engine'.status lobby)) _ _ (λ h. w')
        (λ h1.
          if-Keeps (not (contains c card_pool)) _ _ (λ h. w')
            (λ h2. join_lobby-Keeps block engine' t' u c auto w'))

  some-none : {A : Type 0} {a : A} → some a ≢ none
  some-none h = cc

  drop_card-Keeps :
      (engine : Engine) (t : Tables) (u c : ℕ)
      → RoundIsWf room engine t
      → Keeps (drop_card room engine t u c)
  unfolding drop_card post_drop
  drop_card-Keeps engine t u c w =
      if-Keeps (not (same_status engine.status lobby)) _ _ (λ h. w)
        (λ h1. elim (Option-cases (find_entry u c engine.entries)) [
          | inl e ↦ rw e w
          | inr (entry, e) ↦ rw e (
              if-Keeps (not (is_lobby (round_status engine.round_id t.rounds))) _ _ (λ h. w)
                (λ h2.
                  if-Keeps (not (has_row engine.round_id u c t.round_entries)) _ _ (λ h. w)
                    (λ h3. finish_drop-Keeps engine t u c _ w (λ n. some-none (sym e ∙ n)))))
        ])

-- A join, accepted or refused, keeps the round well-formed: cards differ, each has its row and its
-- stake in the pot, and neither the cards of a player nor the players are more than the room allows.
pub join-RoundIsWf :
    (room : RoomConfig) (card_pool : List ℕ) (block : PlayBlock) (engine : Engine) (t : Tables)
    (u c : ℕ) (auto : Bool) {result : JoinResult} {engine' : Engine} {t' : Tables}
    → RoundIsWf room engine t
    → join room card_pool block engine t u c auto ≡ ok (result, engine', t')
    → RoundIsWf room engine' t'
join-RoundIsWf room card_pool block engine t u c auto w e =
    subst (Keeps room) e (join-Keeps room card_pool block engine t u c auto w)

-- So does a drop of a card.
drop_card-RoundIsWf :
    (room : RoomConfig) (engine : Engine) (t : Tables) (u c : ℕ) {result : JoinResult}
    {engine' : Engine} {t' : Tables}
    → RoundIsWf room engine t
    → drop_card room engine t u c ≡ ok (result, engine', t')
    → RoundIsWf room engine' t'
drop_card-RoundIsWf room engine t u c w e =
    subst (Keeps room) e (drop_card-Keeps room engine t u c w)

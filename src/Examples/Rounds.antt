-- ===== src/Examples/Rounds.antt =====
-- A round with one player: a card is taken and dropped or wins, and the round is refunded or settled
-- (services/engine/round_engine.py and services/engine/refunds.py).
use igame.Common.{ℕ, Bool, ◌++◌, ◌≡◌, refl, true, false, none, some, List, [], ◌∷◌, arith}
use igame.Common.Int.{pos, ◌+ℤ◌, ◌-ℤ◌, ◌*ℤ◌}
use igame.Common.Result.{Result, ok, err}
use igame.ResponsibleGaming.{no_block}
use igame.Bingo.{row, mark_grid, winning_patterns, has_won}
use igame.Ledger.{
  Db, LedgerTransaction, is_user_kind, find_balance, find_account, get_or_create_account,
}
use igame.Ledger.Deltas.{add_delta, add_entries, deltas_of, update_balance, apply_deltas}
use igame.Ledger.Post.{
  PostError, find_transaction, insert_id, sorted_ids, account_kind, lock_one, lock_balances,
  check_delta, check_deltas, entry_rows, post_new, post, transaction_total, check_totals,
  commit_post,
}
use igame.Round.{
  idle, lobby, running, settling, RoomConfig, PendingWinner, Engine, find_entry, cards_held,
  player_count, remove_entry, fresh_engine,
}
use igame.Round.Join.{
  RoundRow, Tables, accept, round_status, card_taken, update_round, transfer, decimal_loop, key_of,
  put_entry, after_join, joined_tables, finish_join, latest_seq, both_accounts, post_stake,
  join_transaction, join_lobby, new_round, start_if_idle, join,
}
use igame.Round.Drop.{
  has_row, delete_rows, after_drop, dropped_tables, finish_drop, post_drop, drop_card,
}
use igame.Round.Claim.{
  manual, CardPool, accept_claim, card_of, is_pending, add_winner, register, check_card, claim,
  auto_claim, scan, add_call, call_next_number,
}
use igame.Round.Settle.{
  find_round, entrants, refund_entrants, refund_open, refund_round, winner_accounts, share_entries,
  payout_entries, pay_winners, settle_transaction,
}
use igame.Round.Entries.{staked}
use igame.Round.Cards.{RoundIsWf, join-RoundIsWf}
use igame.Round.Winners.{WinnersAreWf, claim-WinnersAreWf}
use igame.Round.Funds.{is_over, refund-then-settle}
use igame.Round.Recovery.{
  stuck_rounds, is_orphaned, recover_loop, recover_orphaned_rounds, has_orphan,
}
use igame.Round.Recovery.Sweep.{Holds, IsOrphaned, recover_orphaned_rounds-IsOrphaned}
use igame.Settlement.{compute_derash, split_derash}
use igame.Ledger.Post.Balanced.{sum_amounts}
use igame.Round.Payout.{payout-balances}
use igame.Examples.Accounts.{deposited}
use igame.Examples.Tickets.{grid}

abbrev room : RoomConfig
room = record {
  id = 1;
  stake = pos 100;
  house_cut_bps = pos 2000;
  max_players = 2;
  max_cards_per_player = 2;
  win_patterns = row ∷ [];
  min_winning_lines = 1;
}

abbrev idle_engine : Engine
idle_engine = record {
  status = idle;
  round_id = 0;
  entries = [];
  total_pot = pos 0;
  dropped_this_round = [];
  locked_out = [];
  auto_claimed = [];
  pending_winners = [];
  winner_window_deadline = none;
  draw_order = [];
  called = [];
  call_index = 0;
}

abbrev tables : Tables
tables = record { rounds = []; round_entries = []; ledger = deposited }

abbrev lobby_engine : Engine
lobby_engine = record idle_engine { status = lobby; round_id = 1 }

abbrev opened : Tables
opened = record tables { rounds = new_round room [] ∷ [] }

abbrev ledger_of : Result PostError (LedgerTransaction × Db) → Db
ledger_of (ok (txn, db)) = db
ledger_of (err e) = deposited

abbrev staked_ledger : Db
staked_ledger = ledger_of (
    commit_post (both_accounts deposited 7).2 (
      transfer "stake" (key_of "stake" 1 7 1) (both_accounts deposited 7).0 (pos 100)
        (both_accounts deposited 7).1 1))

abbrev joined_engine : Engine
joined_engine = after_join room lobby_engine 7 1 true

abbrev joined : Tables
joined = joined_tables room lobby_engine opened 7 1 true 2 staked_ledger

stake_posts : post_stake room lobby_engine opened 7 1 true ≡ ok (accept, joined_engine, joined)
unfolding post_stake finish_join both_accounts get_or_create_account find_account key_of
    decimal_loop commit_post check_totals transaction_total post post_new find_transaction insert_id
    sorted_ids account_kind lock_one lock_balances check_delta check_deltas entry_rows add_delta
    add_entries deltas_of update_balance apply_deltas find_balance is_user_kind ◌+ℤ◌ update_round
    put_entry
stake_posts = refl

stake_is_new : find_transaction (key_of "stake" 1 7 1) deposited.transactions ≡ none
unfolding find_transaction key_of decimal_loop
stake_is_new = refl

joins :
    join room (1 ∷ 2 ∷ []) no_block idle_engine tables 7 1 true ≡ ok (accept, joined_engine, joined)
unfolding join start_if_idle fresh_engine join_lobby join_transaction round_status card_taken
    cards_held player_count post_stake finish_join both_accounts get_or_create_account find_account
    key_of decimal_loop commit_post check_totals transaction_total post post_new find_transaction
    insert_id sorted_ids account_kind lock_one lock_balances check_delta check_deltas entry_rows
    add_delta add_entries deltas_of update_balance apply_deltas find_balance is_user_kind ◌+ℤ◌
    update_round put_entry
joins = refl

idle-RoundIsWf : RoundIsWf room idle_engine tables
unfolding staked cards_held player_count
idle-RoundIsWf = record {
  distinct = tt;
  backed = tt;
  one_stake_each = refl;
  cards_fit = λ u. omega arith;
  players_fit = omega arith;
}

join-RoundIsWf_example : RoundIsWf room joined_engine joined
join-RoundIsWf_example =
    join-RoundIsWf room (1 ∷ 2 ∷ []) no_block idle_engine tables 7 1 true idle-RoundIsWf joins

joined-RoundIsWf : RoundIsWf room joined_engine joined
joined-RoundIsWf =
    join-RoundIsWf room (1 ∷ 2 ∷ []) no_block idle_engine tables 7 1 true idle-RoundIsWf joins

abbrev dropped_ledger : Db
dropped_ledger = ledger_of (
    commit_post (both_accounts staked_ledger 7).2 (
      transfer "refund" (key_of "drop" 1 7 1) (both_accounts staked_ledger 7).1 (pos 100)
        (both_accounts staked_ledger 7).0 1))

drops :
    drop_card room joined_engine joined 7 1
    ≡ ok (
      accept,
      after_drop room joined_engine 7 1,
      dropped_tables room joined_engine joined 7 1 dropped_ledger,
    )
unfolding drop_card find_entry round_status has_row post_drop finish_drop both_accounts
    get_or_create_account find_account key_of decimal_loop commit_post check_totals
    transaction_total post post_new find_transaction insert_id sorted_ids account_kind lock_one
    lock_balances check_delta check_deltas entry_rows add_delta add_entries deltas_of update_balance
    apply_deltas find_balance is_user_kind ◌+ℤ◌ update_round put_entry delete_rows remove_entry
drops = refl

abbrev pool : CardPool
pool = (1, grid) ∷ []

abbrev running_engine : Engine
running_engine = record joined_engine {
  status = running;
  draw_order = 1 ∷ 16 ∷ 31 ∷ 46 ∷ 61 ∷ 2 ∷ [];
  called = 46 ∷ 31 ∷ 16 ∷ 1 ∷ [];
  call_index = 4;
}

running-WinnersAreWf : WinnersAreWf room pool running_engine
running-WinnersAreWf = record { all_won = tt; each_once = tt; none_yet = λ h. refl }

-- The fifth number completes the first row, and the card claims by itself.
abbrev won_engine : Engine
won_engine =
    record (add_winner (add_call running_engine 61) 7 1
      (winning_patterns grid (61 ∷ running_engine.called) (row ∷ []))) {
        status = settling;
        winner_window_deadline = some 1050;
        auto_claimed = (7, 1) ∷ [];
      }

calls : call_next_number room pool true running_engine 1000 ≡ ok (true, won_engine)
unfolding call_next_number scan auto_claim claim card_of has_won mark_grid winning_patterns
    find_entry check_card register is_pending put_entry
calls = refl

abbrev called_engine : Engine
called_engine = add_call running_engine 61

called-WinnersAreWf : WinnersAreWf room pool called_engine
called-WinnersAreWf = record { all_won = tt; each_once = tt; none_yet = λ h. refl }

claims :
    claim room pool called_engine 7 1 manual 1000
    ≡ ok (accept_claim, record won_engine { auto_claimed = [] })
unfolding claim card_of mark_grid winning_patterns find_entry check_card register is_pending
    put_entry
claims = refl

claim-WinnersAreWf_example : WinnersAreWf room pool (record won_engine { auto_claimed = [] })
claim-WinnersAreWf_example =
    claim-WinnersAreWf room pool called_engine 7 1 manual 1000 called-WinnersAreWf claims

abbrev tables_of : {A : Type 0} → Result PostError (A × Tables) → Tables
tables_of (ok (answer, t)) = t
tables_of (err e) = joined

abbrev refunded : Tables
refunded = tables_of (refund_round joined 1 "stopped")

refunds : refund_round joined 1 "stopped" ≡ ok (1, refunded)
unfolding refund_round find_round entrants refund_entrants refund_open both_accounts
    get_or_create_account find_account key_of decimal_loop commit_post check_totals
    transaction_total post post_new find_transaction insert_id sorted_ids account_kind lock_one
    lock_balances check_delta check_deltas entry_rows add_delta add_entries deltas_of update_balance
    apply_deltas find_balance is_user_kind ◌+ℤ◌ update_round
refunds = refl

abbrev winners : List PendingWinner
winners = won_engine.pending_winners

refund-then-settle_example :
    settle_transaction 1 (pos 100) winners (pos 80 ∷ []) (pos 20) refunded ≡ ok (false, refunded)
refund-then-settle_example =
    refund-then-settle joined 1 "stopped" 1 (pos 100) winners (pos 80 ∷ []) (pos 20) refunds

-- No engine holds the lock of the room.
abbrev no_lock : ℕ → Bool
no_lock room_id = false

abbrev recovered : Tables
recovered = tables_of (refund_round joined 1 "crash_recovery")

recovers : recover_orphaned_rounds no_lock joined ≡ ok (1 ∷ [], recovered)
unfolding recover_orphaned_rounds recover_loop stuck_rounds is_orphaned latest_seq refund_round
    find_round entrants refund_entrants refund_open both_accounts get_or_create_account find_account
    key_of decimal_loop commit_post check_totals transaction_total post post_new find_transaction
    insert_id sorted_ids account_kind lock_one lock_balances check_delta check_deltas entry_rows
    add_delta add_entries deltas_of update_balance apply_deltas find_balance is_user_kind ◌+ℤ◌
    update_round
recovers = refl

-- The lock is held, but by the engine of a newer round of the room.
recovers_old :
    recover_orphaned_rounds
      (λ room_id. true)
      (record joined {
        rounds = joined.rounds ++ record (new_round room joined.rounds) { status = running } ∷ [];
      })
    ≡ ok (
      1 ∷ [],
      record recovered {
        rounds =
            recovered.rounds ++ record (new_round room joined.rounds) { status = running } ∷ [];
      },
    )
unfolding recover_orphaned_rounds recover_loop stuck_rounds is_orphaned latest_seq refund_round
    find_round entrants refund_entrants refund_open both_accounts get_or_create_account find_account
    key_of decimal_loop commit_post check_totals transaction_total post post_new find_transaction
    insert_id sorted_ids account_kind lock_one lock_balances check_delta check_deltas entry_rows
    add_delta add_entries deltas_of update_balance apply_deltas find_balance is_user_kind ◌+ℤ◌
    update_round
recovers_old = refl

orphaned : has_orphan no_lock joined.rounds 1 (stuck_rounds joined.rounds) ≡ true
unfolding has_orphan is_orphaned stuck_rounds latest_seq put_entry update_round
orphaned = refl

recover_orphaned_rounds-IsOrphaned_example :
    ((r : RoundRow)
      → Holds joined.rounds r
      → IsOrphaned no_lock joined.rounds r
      → is_over (find_round r.id recovered.rounds) ≡ true)
    × ((k : ℕ)
        → ((r : RoundRow) → Holds joined.rounds r → r.id ≡ k → ¬ IsOrphaned no_lock joined.rounds r)
        → find_round k recovered.rounds ≡ find_round k joined.rounds)
recover_orphaned_rounds-IsOrphaned_example =
    recover_orphaned_rounds-IsOrphaned no_lock joined recovers

abbrev settled : Tables
settled = tables_of (settle_transaction 1 (pos 100) winners (pos 80 ∷ []) (pos 20) joined)

settles : settle_transaction 1 (pos 100) winners (pos 80 ∷ []) (pos 20) joined ≡ ok (true, settled)
unfolding settle_transaction find_round pay_winners payout_entries share_entries winner_accounts
    both_accounts get_or_create_account find_account key_of decimal_loop commit_post check_totals
    transaction_total post post_new find_transaction insert_id sorted_ids account_kind lock_one
    lock_balances check_delta check_deltas entry_rows add_delta add_entries deltas_of update_balance
    apply_deltas find_balance is_user_kind ◌+ℤ◌ update_round
settles = refl

-- Two winning cards of one player share 101 cents.
abbrev two_winners : List PendingWinner
two_winners =
    record { user_id = 7; card_no = 1; patterns = []; call_index = 5 }
    ∷ record { user_id = 7; card_no = 2; patterns = []; call_index = 5 }
    ∷ []

cut_of_101 : compute_derash (pos 101) (pos 2000) ≡ ok (pos 80, pos 21)
unfolding compute_derash ◌-ℤ◌ ◌*ℤ◌
cut_of_101 = refl

shares_of_80 : split_derash (pos 80) (pos 2) ≡ ok (pos 40 ∷ pos 40 ∷ [], pos 0)
unfolding split_derash ◌-ℤ◌ ◌*ℤ◌
shares_of_80 = refl

payout-balances_example :
    sum_amounts (
      payout_entries 3
        (pos 101)
        (winner_accounts two_winners deposited).0
        (pos 40 ∷ pos 40 ∷ [])
        4
        (pos 21 +ℤ pos 0))
    ≡ pos 0
payout-balances_example =
    payout-balances 101 2000 two_winners deposited 3 4 (omega arith) (omega arith) cut_of_101
      shares_of_80

-- ===== src/Lib.antt =====
-- A model of the core of igame, a real-money platform with two games, Bingo and Keno, and of the
-- properties it relies on.
--
-- The program. packages/core holds the domain: the double-entry ledger (ledger.py), the rules of the
-- games (bingo.py, keno.py), the controls for players (responsible_gaming.py) and for the risk of the
-- house (keno_tier_automation.py). services holds the processes around it: the engine that runs rounds
-- and settles them (services/engine), payments, the gateway, the bots and the admin console, whose
-- permissions are in services/admin/rbac.py. Every movement of money is a call of `ledger.post`; a
-- round's draw comes from a byte stream seeded by the server and the players; a stake passes the gate
-- of responsible_gaming.py first; a round's pot is divided by services/engine/settlement.py.
--
-- The files.
--   Common           tests and lists over the native numbers, signed integers, results of calls that
--                    may raise, and counting in lists.
--   Settlement       services/engine/settlement.py: compute_derash and split_derash.
--   ByteStream       the class _ByteStream of packages/core/bingo.py and keno.py: take and below.
--   Bingo            packages/core/bingo.py: letter_for, mark_grid, winning_patterns, has_won; in
--                    Bingo/Draw derive_draw and verify_draw.
--   Keno             packages/core/keno.py: validate_picks, count_matches, compute_payout; in
--                    Keno/Probability the exact distribution, in Keno/Rtp compute_rtp, hit_frequency
--                    and validate_paytable_rtp, in Keno/Draw derive_keno_draw and verify_draw.
--   Keno/Tier        packages/core/keno_tier_automation.py: evaluate_tier_transition and
--                    check_circuit_breaker.
--   Ledger           packages/core/ledger.py: Ledger/Base the tables and the reads, Ledger/Deltas the
--                    changes of a post, Ledger/Post the call itself, with the deferred trigger of
--                    migrations/versions/81d041ff4513_ledger_foundation.py and the CHECK on the kind of
--                    migrations/versions/a3f7c2e91b04_keno_core_schema.py.
--                    Ledger/Wallets what a user holds of a kind, Ledger/Transfers a post between two of them.
--   Payments         services/payments: Payments/Withdrawals withdrawals.py, with its references in
--                    Payments/Reference, Payments/Payouts payout_worker.py, and Payments/Review the
--                    decisions of an admin on withdrawals in services/admin/queries.py. What the provider
--                    answers is an argument of process_one.
--   Bonuses          packages/core/bonuses.py: grant_bonus, convert_bonus_to_cash, expire_bonus and
--                    revoke_bonus.
--   Keno/Autoplay    packages/core/keno_autoplay.py: the sessions that place a ticket in every round. What
--                    place_ticket and check_stake_allowed answer are arguments.
--   Round            services/engine/round_engine.py: Round/Join join, Round/Drop drop_card,
--                    Round/Claim claim and _call_next_number, Round/Settle the transaction of _settle_with_winners and
--                    services/engine/refunds.py, Round/Recovery services/engine/recovery.py. What check_stake_allowed
--                    answers is an argument of join, and whether a room's lock is held one of the sweep.
--   ResponsibleGaming  packages/core/responsible_gaming.py: set_deposit_limit, set_loss_limit,
--                    cool_off, self_exclude, check_play_allowed, check_stake_allowed and
--                    marketing_eligible_user_ids.
--   Rbac             services/admin/rbac.py: the table of permissions and has_permission.
--   Examples         runs of the definitions at concrete inputs.
--
-- How the state corresponds. A database is a record of its tables, a table a list of rows; a call takes
-- the database and returns the new one, or an error with no database, since its transaction is rolled
-- back. Money is a whole number of cents, the scale of the columns; a negative amount is a signed integer. A time is a number of seconds, in
-- Round/Claim of milliseconds, and the clock of a call is an argument of it. Bytes are numbers below 256.
-- A multiplier is a whole number of ten-thousandths: paytables are JSON, and one with finer or negative multipliers
-- is outside the model.
--
-- Bounds and fuel. The loop of `below` runs on fuel, 65 samples a number: with blocks of 32 bytes of
-- which one at least is below 177, a refilled buffer always holds a byte under the threshold of each
-- bound up to 80, so a sample is found in what is left of one block (32) and one new block (32). `take`
-- runs on one step of fuel more than the bytes it has to provide. That the blocks which a draw can reach are so is a
-- hypothesis on these blocks alone (ByteStream.Returns.FairBlocks); HMAC-SHA256 is a parameter of the model, of which
-- only the 32 bytes of a digest are assumed (ByteStream.Returns.HasDigests). The digits of a number in a key are
-- found with one step of fuel more than the number, which has fewer digits than that.
--
-- Not modelled: input and output (HTTP, WebSockets, Redis, Telegram), metrics and logs, interleavings
-- inside one transaction, which Postgres orders by row locks, floating-point statistics, the generation
-- of the pool of Bingo cards (Python's random generator), the hashes of seeds, the loops that wait in a
-- round, the rows of round_winners and claim_attempts, two workers on one payout at a time, the audit log, the
-- foreign keys of a transaction's round and payment and the width of numeric(18,2), calls between two sessions of
-- one round of Keno/Autoplay,
-- and the other processes around the domain: Keno tickets, deposits and referrals. A sequence of the database
-- that a refused call has advanced is left as it was.
pub mod Common
pub mod Settlement
pub mod ByteStream
pub mod Bingo
pub mod Keno
pub mod Ledger
pub mod Round
pub mod Payments
pub mod Bonuses
mod Examples
pub mod Rbac
pub mod ResponsibleGaming

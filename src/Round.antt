-- ===== src/Round.antt =====
-- services/engine/round_engine.py: a round of Bingo while cards are taken, dropped and claimed. The
-- locks of the source make each of these calls one step.
pub mod Join
pub mod Drop
pub mod Claim
pub mod Entries
pub mod Cards
pub mod Settle
pub mod Funds
pub mod Recovery
pub mod Stakes
pub mod Payout
pub mod Winners
use igame.Common.{
  ℕ, ◌+◌, Bool, true, false, ◌&&◌, ◌||◌, not, Option, none, some, String, List, [], ◌∷◌, ◌==◌, leb,
  if◌then◌else◌,
}
use igame.Common.Int.{ℤ, pos}
use igame.Bingo.{Kind, Pattern}

pub data Status : Type 0 where
  idle lobby running settling done voided : Status

abbrev pub same_status : Status → Status → Bool
same_status idle idle = true
same_status lobby lobby = true
same_status running running = true
same_status settling settling = true
same_status done done = true
same_status voided voided = true
same_status _ _ = false

-- The part of `RoomConfig` that these calls read.
pub record RoomConfig : Type 0 where
  pub id : ℕ
  pub stake : ℤ
  pub house_cut_bps : ℤ
  pub max_players : ℕ
  pub max_cards_per_player : ℕ
  pub win_patterns : List Kind
  pub min_winning_lines : ℕ

-- An item of `_entries`, with the user of its key.
pub record RoundEntryState : Type 0 where
  pub user_id : ℕ
  pub card_no : ℕ
  pub auto_mark : Bool

pub record PendingWinner : Type 0 where
  pub user_id : ℕ
  pub card_no : ℕ
  pub patterns : List Pattern
  pub call_index : ℕ

-- The fields of a `RoundEngine`.
pub record Engine : Type 0 where
  pub status : Status
  pub round_id : ℕ
  pub entries : List RoundEntryState
  pub total_pot : ℤ
  pub dropped_this_round : List (ℕ × ℕ)
  pub locked_out : List (ℕ × ℕ)
  pub auto_claimed : List (ℕ × ℕ)
  pub pending_winners : List PendingWinner
  pub winner_window_deadline : Option ℕ
  pub draw_order : List ℕ
  pub called : List ℕ
  pub call_index : ℕ

-- `(user_id, card_no) in keys`
abbrev pub has_key : ℕ → ℕ → List (ℕ × ℕ) → Bool
has_key user_id card_no [] = false
has_key user_id card_no ((u, c) ∷ rest) =
    (u == user_id && c == card_no) || has_key user_id card_no rest

-- `self._entries.get((user_id, card_no))`
unfoldable pub find_entry : ℕ → ℕ → List RoundEntryState → Option RoundEntryState
find_entry user_id card_no [] = none
find_entry user_id card_no (e ∷ rest) =
    if e.user_id == user_id && e.card_no == card_no then some e else find_entry user_id card_no rest

-- `sum(1 for uid, _ in self._entries if uid == user_id)`
unfoldable pub cards_held : ℕ → List RoundEntryState → ℕ
cards_held user_id [] = 0
cards_held user_id (e ∷ rest) =
    if e.user_id == user_id then cards_held user_id rest + 1 else cards_held user_id rest

-- `len({user_id for user_id, _ in self._entries})`
unfoldable pub player_count : List RoundEntryState → ℕ
unfolding cards_held
player_count [] = 0
player_count (e ∷ rest) =
    if cards_held e.user_id rest == 0 then player_count rest + 1 else player_count rest

-- `del self._entries[(user_id, card_no)]`
unfoldable pub remove_entry : ℕ → ℕ → List RoundEntryState → List RoundEntryState
remove_entry user_id card_no [] = []
remove_entry user_id card_no (e ∷ rest) =
    if e.user_id == user_id && e.card_no == card_no
    then rest
    else e ∷ remove_entry user_id card_no rest

-- What `_start_new_round` sets, for the id of the row it inserts.
unfoldable pub fresh_engine : ℕ → Engine → Engine
fresh_engine id engine = record {
  status = lobby;
  round_id = id;
  entries = [];
  total_pot = pos 0;
  dropped_this_round = [];
  locked_out = [];
  auto_claimed = [];
  pending_winners = [];
  winner_window_deadline = none;
  draw_order = [];
  called = [];
  call_index = 0;
}

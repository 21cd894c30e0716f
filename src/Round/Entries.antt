-- ===== src/Round/Entries.antt =====
-- The cards of a round and their rows (services/engine/round_engine.py), when one is added or removed.
use mathlib.Core.Bool.{false≢true}
use igame.Common.{
  ℕ, ◌+◌, ◌≤◌, ◌≡◌, refl, ap, sym, ◌∙◌, Bool, true, false, ◌&&◌, ◌||◌, none, List, [], ◌∷◌, ◌++◌,
  arith, ◌==◌, ==_iff, if◌then◌else◌, Bool-cases, inl, inr, ◌≢◌,
}
use igame.Common.Int.{ℤ, pos, ◌+ℤ◌, ◌-ℤ◌, int_laws}
use igame.Round.{RoundEntryState, find_entry, cards_held, player_count, remove_entry}
use igame.Round.Join.{EntryRow, card_taken, put_entry}
use igame.Round.Drop.{delete_rows}

unfoldable pub has_card : ℕ → List RoundEntryState → Bool
has_card c [] = false
has_card c (e ∷ rest) = e.card_no == c || has_card c rest

abbrev pub Distinct : List RoundEntryState → Type 0
Distinct [] = Unit
Distinct (e ∷ rest) = (has_card e.card_no rest ≡ false) × Distinct rest

-- Each card of the engine has its row.
abbrev pub Backed : ℕ → List EntryRow → List RoundEntryState → Type 0
Backed id rows [] = Unit
Backed id rows (e ∷ rest) = (card_taken id e.card_no rows ≡ true) × Backed id rows rest

-- One stake for each card.
unfoldable pub staked : ℤ → List RoundEntryState → ℤ
staked stake [] = pos 0
staked stake (e ∷ rest) = stake +ℤ staked stake rest

pub Backed-has :
    (id c : ℕ) (rows : List EntryRow) (es : List RoundEntryState)
    → Backed id rows es
    → card_taken id c rows ≡ false
    → has_card c es ≡ false
unfolding has_card
Backed-has id c rows [] b n = refl
Backed-has id c rows (e ∷ es) b n = elim (Bool-cases (e.card_no == c)) [
  | inl same ↦
      let eq : e.card_no ≡ c = (==_iff e.card_no c).0 same in
      absurd (false≢true (sym n ∙ ap (λ (x : ℕ). card_taken id x rows) (sym eq) ∙ b.0))
  | inr other ↦ ground (arith, other, Backed-has id c rows es b.1 n)
]

pub put-append :
    (e : RoundEntryState) (es : List RoundEntryState)
    → has_card e.card_no es ≡ false
    → put_entry e es ≡ es ++ e ∷ []
unfolding put_entry has_card
put-append e [] h = refl
put-append e (x ∷ es) h = ground (arith, put-append e es)

pub has_card-append :
    (c : ℕ) (e : RoundEntryState) (es : List RoundEntryState)
    → has_card c (es ++ e ∷ []) ≡ (has_card c es || e.card_no == c)
unfolding has_card
has_card-append c e [] = ground arith
has_card-append c e (x ∷ es) = ground (arith, has_card-append c e es)

pub Distinct-append :
    (e : RoundEntryState) (es : List RoundEntryState)
    → has_card e.card_no es ≡ false
    → Distinct es
    → Distinct (es ++ e ∷ [])
unfolding has_card
Distinct-append e [] h d = (refl, tt)
Distinct-append e (x ∷ es) h d =
    ground (arith, Distinct-append e es, has_card-append x.card_no e es)

pub staked-append :
    (stake : ℤ) (e : RoundEntryState) (es : List RoundEntryState)
    → staked stake (es ++ e ∷ []) ≡ staked stake es +ℤ stake
unfolding staked
staked-append stake e [] = grind int_laws
staked-append stake e (x ∷ es) = grind (int_laws, staked-append stake e es)

pub cards_held-append :
    (u : ℕ) (e : RoundEntryState) (es : List RoundEntryState)
    → cards_held u (es ++ e ∷ []) ≡ cards_held u es + (if e.user_id == u then 1 else 0)
unfolding cards_held
cards_held-append u e [] = ground arith
cards_held-append u e (x ∷ es) = ground (arith, cards_held-append u e es)

pub player_count-append :
    (e : RoundEntryState) (es : List RoundEntryState)
    → player_count (es ++ e ∷ [])
      ≡ player_count es + (if cards_held e.user_id es == 0 then 1 else 0)
unfolding player_count cards_held
player_count-append e [] = refl
player_count-append e (x ∷ es) =
    ground (arith, player_count-append e es, cards_held-append x.user_id e es)

pub card_taken-append :
    (id c : ℕ) (r : EntryRow) (rows : List EntryRow)
    → card_taken id c (rows ++ r ∷ [])
      ≡ (card_taken id c rows || (r.round_id == id && r.card_no == c))
unfolding card_taken
card_taken-append id c r [] = ground arith
card_taken-append id c r (x ∷ rows) = ground (arith, card_taken-append id c r rows)

pub Backed-more :
    (id : ℕ) (r : EntryRow) (rows : List EntryRow) (es : List RoundEntryState)
    → Backed id rows es
    → Backed id (rows ++ r ∷ []) es
Backed-more id r rows [] b = tt
Backed-more id r rows (e ∷ es) b =
    (ground (arith, card_taken-append id e.card_no r rows, b.0), Backed-more id r rows es b.1)

pub Backed-append :
    (id : ℕ) (rows : List EntryRow) (e : RoundEntryState) (es : List RoundEntryState)
    → Backed id rows es
    → card_taken id e.card_no rows ≡ true
    → Backed id rows (es ++ e ∷ [])
Backed-append id rows e [] b h = (h, tt)
Backed-append id rows e (x ∷ es) b h = (b.0, Backed-append id rows e es b.1 h)

pub card_taken-delete :
    (id u c a : ℕ) (rows : List EntryRow)
    → (c == a) ≡ false
    → card_taken id a (delete_rows id u c rows) ≡ card_taken id a rows
unfolding card_taken delete_rows
card_taken-delete id u c a [] h = refl
card_taken-delete id u c a (r ∷ rows) h = ground (arith, card_taken-delete id u c a rows h)

-- Entries without the card of the deleted row keep their rows.
pub Backed-delete :
    (id u c : ℕ) (rows : List EntryRow) (es : List RoundEntryState)
    → has_card c es ≡ false
    → Backed id rows es
    → Backed id (delete_rows id u c rows) es
unfolding has_card
Backed-delete id u c rows [] n b = tt
Backed-delete id u c rows (e ∷ es) n b = (
  card_taken-delete id u c e.card_no rows (ground arith) ∙ b.0,
  Backed-delete id u c rows es (ground (arith, n)) b.1,
)

pub has_card-found :
    (u c : ℕ) (es : List RoundEntryState) → find_entry u c es ≢ none → has_card c es ≡ true
unfolding has_card find_entry
has_card-found u c [] f = absurd (f refl)
has_card-found u c (e ∷ es) f = ground (arith, f, has_card-found u c es)

pub Backed-remove :
    (id u c : ℕ) (rows : List EntryRow) (es : List RoundEntryState)
    → Distinct es
    → Backed id rows es
    → find_entry u c es ≢ none
    → Backed id (delete_rows id u c rows) (remove_entry u c es)
unfolding remove_entry find_entry
Backed-remove id u c rows [] d b f = tt
Backed-remove id u c rows (e ∷ es) d b f = elim (Bool-cases (e.user_id == u && e.card_no == c)) [
  | inl hit ↦
      let same : e.card_no ≡ c = (==_iff e.card_no c).0 (ground (arith, hit)) in
      rw hit (Backed-delete id u c rows es (ap (λ (x : ℕ). has_card x es) (sym same) ∙ d.0) b.1)
  | inr miss ↦ rw miss (
    card_taken-delete id u c e.card_no rows (differs (ground (arith, f, miss))) ∙ b.0,
    Backed-remove id u c rows es d.1 b.1 (ground (arith, f, miss)),
  )
]
  where
    differs : find_entry u c es ≢ none → (c == e.card_no) ≡ false
    differs found = elim (Bool-cases (c == e.card_no)) [
      | inr n ↦ n
      | inl h ↦
          let same : c ≡ e.card_no = (==_iff c e.card_no).0 h in
          absurd (
            false≢true
              (sym d.0 ∙ ap (λ (x : ℕ). has_card x es) (sym same) ∙ has_card-found u c es found))
    ]

pub has_card-remove :
    (a u c : ℕ) (es : List RoundEntryState)
    → has_card a es ≡ false
    → has_card a (remove_entry u c es) ≡ false
unfolding has_card remove_entry
has_card-remove a u c [] h = refl
has_card-remove a u c (e ∷ es) h = ground (arith, has_card-remove a u c es)

pub Distinct-remove :
    (u c : ℕ) (es : List RoundEntryState) → Distinct es → Distinct (remove_entry u c es)
unfolding remove_entry
Distinct-remove u c [] d = tt
Distinct-remove u c (e ∷ es) d =
    ground (arith, Distinct-remove u c es, has_card-remove e.card_no u c es)

pub staked-remove :
    (stake : ℤ) (u c : ℕ) (es : List RoundEntryState)
    → find_entry u c es ≢ none
    → staked stake (remove_entry u c es) ≡ staked stake es -ℤ stake
unfolding staked remove_entry find_entry
staked-remove stake u c [] f = absurd (f refl)
staked-remove stake u c (e ∷ es) f = elim (Bool-cases (e.user_id == u && e.card_no == c)) [
  | inl hit ↦ rw hit (grind int_laws)
  | inr miss ↦ rw miss (grind (int_laws, staked-remove stake u c es (ground (arith, f, miss))))
]

pub cards_held-remove :
    (a u c : ℕ) (es : List RoundEntryState) → cards_held a (remove_entry u c es) ≤ cards_held a es
unfolding cards_held remove_entry
cards_held-remove a u c [] = omega arith
cards_held-remove a u c (e ∷ es) = ground (arith, cards_held-remove a u c es)

pub cards_held-found :
    (a u c : ℕ) (es : List RoundEntryState)
    → find_entry u c es ≢ none
    → cards_held a es ≡ cards_held a (remove_entry u c es) + (if u == a then 1 else 0)
unfolding cards_held remove_entry find_entry
cards_held-found a u c [] f = absurd (f refl)
cards_held-found a u c (e ∷ es) f = elim (Bool-cases (e.user_id == u && e.card_no == c)) [
  | inl hit ↦
      let same : e.user_id ≡ u = (==_iff e.user_id u).0 (ground (arith, hit)) in
      rw hit (
        ap (λ (x : ℕ). if x == a then cards_held a es + 1 else cards_held a es) same ∙ ground arith)
  | inr miss ↦ rw miss (ground (arith, cards_held-found a u c es (ground (arith, f, miss))))
]

-- A player leaves with the last of his cards.
pub player_count-found :
    (u c : ℕ) (es : List RoundEntryState)
    → find_entry u c es ≢ none
    → player_count es
      ≡ player_count (remove_entry u c es)
        + (if cards_held u (remove_entry u c es) == 0 then 1 else 0)
unfolding player_count remove_entry cards_held find_entry
player_count-found u c [] f = absurd (f refl)
player_count-found u c (e ∷ es) f = elim (Bool-cases (e.user_id == u && e.card_no == c)) [
  | inl hit ↦
      let same : e.user_id ≡ u = (==_iff e.user_id u).0 (ground (arith, hit)) in
      rw hit (
        ap (λ (x : ℕ). if cards_held x es == 0 then player_count es + 1 else player_count es) same
        ∙ ground arith)
  | inr miss ↦
      let found : find_entry u c es ≢ none = ground (arith, f, miss) in
      let ih = player_count-found u c es found in
      let held = cards_held-found e.user_id u c es found in
      elim (Bool-cases (e.user_id == u)) [
        | inl mine ↦
            let same : u ≡ e.user_id = sym ((==_iff e.user_id u).0 mine) in
            let agree = ap (λ (x : ℕ). cards_held x (remove_entry u c es)) same in
            rw miss (ground (arith, mine, ih, held, agree))
        | inr other ↦ rw miss (ground (arith, other, ih, held))
      ]
]

-- ===== src/Bingo/Won.antt =====
-- Which lines a card has won, written out square by square (packages/core/bingo.py).
use igame.Common.{
  ℕ, zero, suc, ◌≡◌, refl, ap, ◌∙◌, Bool, true, false, ◌&&◌, List, [], ◌∷◌, map, get_or, Bool-cases,
  inl, inr,
}
use igame.Common.Counts.{contains}
use igame.Bingo.{Grid, Kind, row, col, diag, Pattern, all_patterns, kind_in, winning_patterns}
use igame.Bingo.Lines.{complete, lines_of, winning_patterns-eq-lines}

-- The square of row `r` and column `c` counts: it is the middle of the card, or its number was called.
abbrev pub counts : Grid → List ℕ → ℕ → ℕ → Bool
counts grid called (suc (suc zero)) (suc (suc zero)) = true
counts grid called r c = contains (get_or (get_or grid r []) c 0) called

-- All of the five squares of a line count.
abbrev all_five : (ℕ → Bool) → Bool
all_five f = f 0 && (f 1 && (f 2 && (f 3 && f 4)))

-- A kind is asked for.
abbrev asks_for : Kind → List Kind → Bool
asks_for k [] = false
asks_for row (row ∷ rest) = true
asks_for col (col ∷ rest) = true
asks_for diag (diag ∷ rest) = true
asks_for k (_ ∷ rest) = asks_for k rest

abbrev pub keep : {A : Type 0} → Bool → A → List A → List A
keep true a rest = a ∷ rest
keep false a rest = rest

-- The twelve lines of a card: the rows from the top, the columns from the left, the diagonal from the
-- top left corner and the one from the top right corner.
abbrev pub lines_won : Grid → List ℕ → List Kind → List (Kind × ℕ)
lines_won grid called enabled =
    let on = counts grid called in
    let rows = asks_for row enabled in
    let cols = asks_for col enabled in
    let diags = asks_for diag enabled in
    let in_row = λ (r : ℕ). rows && all_five (λ c. on r c) in
    let in_col = λ (c : ℕ). cols && all_five (λ r. on r c) in
    keep (in_row 0) (row, 0)
      (keep (in_row 1) (row, 1)
        (keep (in_row 2) (row, 2)
          (keep (in_row 3) (row, 3)
            (keep (in_row 4) (row, 4)
              (keep (in_col 0) (col, 0)
                (keep (in_col 1) (col, 1)
                  (keep (in_col 2) (col, 2)
                    (keep (in_col 3) (col, 3)
                      (keep (in_col 4) (col, 4)
                        (keep (diags && (on 0 0 && (on 1 1 && (on 2 2 && (on 3 3 && on 4 4)))))
                          (diag, 0)
                          (keep (diags && (on 0 4 && (on 1 3 && (on 2 2 && (on 3 1 && on 4 0)))))
                            (diag, 1) [])))))))))))

-- The name of a pattern, such as "row_3".
abbrev pub name : Pattern → Kind × ℕ
name p = (p.kind, p.index)

kind_in-asks : (k : Kind) (enabled : List Kind) → kind_in k enabled ≡ asks_for k enabled
kind_in-asks k [] = refl
kind_in-asks row (row ∷ rest) = refl
kind_in-asks row (col ∷ rest) = kind_in-asks row rest
kind_in-asks row (diag ∷ rest) = kind_in-asks row rest
kind_in-asks col (row ∷ rest) = kind_in-asks col rest
kind_in-asks col (col ∷ rest) = refl
kind_in-asks col (diag ∷ rest) = kind_in-asks col rest
kind_in-asks diag (row ∷ rest) = kind_in-asks diag rest
kind_in-asks diag (col ∷ rest) = kind_in-asks diag rest
kind_in-asks diag (diag ∷ rest) = refl

-- The names of the lines, one after the other.
names_of : Grid → List ℕ → List Kind → List Pattern → List (Kind × ℕ)
names_of grid called enabled [] = []
names_of grid called enabled (p ∷ ps) =
    keep (asks_for p.kind enabled && complete grid called p.cells) (name p)
      (names_of grid called enabled ps)

names-lines :
    (grid : Grid) (called : List ℕ) (enabled : List Kind) (ps : List Pattern)
    → map name (lines_of grid called enabled ps) ≡ names_of grid called enabled ps
unfolding names_of
names-lines grid called enabled [] = refl
names-lines grid called enabled (p ∷ ps) =
    rw (kind_in-asks p.kind enabled)
      (elim (Bool-cases (asks_for p.kind enabled && complete grid called p.cells)) [
        | inl e ↦
            rw e (ap (λ (xs : List (Kind × ℕ)). name p ∷ xs) (names-lines grid called enabled ps))
        | inr e ↦ rw e (names-lines grid called enabled ps)
      ])

and_true : (b : Bool) → (b && true) ≡ b
and_true true = refl
and_true false = refl

-- The names of the winning patterns are those of the lines of an enabled kind, row, column or diagonal, of
-- which each of the five squares is the middle of the card or holds a called number, in the order of the
-- twelve lines.
pub names-winning_patterns :
    (grid : Grid) (called : List ℕ) (enabled : List Kind)
    → map name (winning_patterns grid called enabled) ≡ lines_won grid called enabled
unfolding names_of
names-winning_patterns grid called enabled =
    ap (map name) (winning_patterns-eq-lines grid called enabled)
    ∙ names-lines grid called enabled all_patterns
    ∙ simp and_true refl

-- ===== src/Bingo.antt =====
-- packages/core/bingo.py: the grid, the winning lines and the win verdict. The draw is in a
-- module below.
pub mod Lines
pub mod Won
pub mod Draw
use igame.Common.{
  ℕ, zero, suc, ◌+◌, ◌-◌, Bool, true, false, ◌&&◌, ◌||◌, List, [], ◌∷◌, ◌++◌, map, ltb, leb, ◌==◌,
  if◌then◌else◌, length, get_or,
}
use igame.Common.Counts.{range, contains}
use igame.Common.Result.{Result, ok, err}

abbrev pub Grid : Type 0
Grid = List (List ℕ)

abbrev pub free_row : ℕ
free_row = 2

abbrev pub free_col : ℕ
free_col = 2

pub data Letter : Type 0 where
  b i n g o : Letter

pub data ValueError : Type 0 where
  not_a_bingo_number : ℕ → ValueError

-- `_COLUMN_RANGES`, as the first number of each letter's fifteen.
abbrev pub column_start : Letter → ℕ
column_start Letter.b = 1
column_start Letter.i = 16
column_start Letter.n = 31
column_start Letter.g = 46
column_start Letter.o = 61

abbrev pub columns : List Letter
columns = Letter.b ∷ Letter.i ∷ Letter.n ∷ Letter.g ∷ Letter.o ∷ []

abbrev pub in_column : ℕ → Letter → Bool
in_column k l = leb (column_start l) k && ltb k (column_start l + 15)

find_letter : ℕ → List Letter → Result ValueError Letter
find_letter k [] = err (not_a_bingo_number k)
find_letter k (l ∷ ls) = let rest = find_letter k ls in if in_column k l then ok l else rest

unfoldable pub letter_for : ℕ → Result ValueError Letter
unfolding find_letter
letter_for k = find_letter k columns

-- `grid[r][c]`; every grid of the pool is five by five, and no index passes 4.
abbrev pub cell : Grid → ℕ → ℕ → ℕ
cell grid r c = get_or (get_or grid r []) c 0

-- What `mark_grid` writes at one place.
abbrev pub mark : Grid → List ℕ → ℕ → ℕ → Bool
mark grid called r c =
    if r == free_row && c == free_col then true else contains (cell grid r c) called

unfoldable pub mark_grid : Grid → List ℕ → List (List Bool)
mark_grid grid called = map (λ r. map (λ c. mark grid called r c) (range 0 5)) (range 0 5)

pub data Kind : Type 0 where
  row col diag : Kind

pub record Pattern : Type 0 where
  pub kind : Kind
  pub index : ℕ
  pub cells : List (ℕ × ℕ)

abbrev pub row_pattern : ℕ → Pattern
row_pattern r = record { kind = row; index = r; cells = map (λ c. (r, c)) (range 0 5) }

abbrev pub col_pattern : ℕ → Pattern
col_pattern c = record { kind = col; index = c; cells = map (λ r. (r, c)) (range 0 5) }

abbrev pub diag_main : Pattern
diag_main = record { kind = diag; index = 0; cells = map (λ k. (k, k)) (range 0 5) }

abbrev pub diag_anti : Pattern
diag_anti = record { kind = diag; index = 1; cells = map (λ k. (k, 4 - k)) (range 0 5) }

-- `_all_patterns`. A pattern's name, such as "row_3", is its kind with its index.
abbrev pub all_patterns : List Pattern
all_patterns =
    map row_pattern (range 0 5) ++ map col_pattern (range 0 5) ++ diag_main ∷ diag_anti ∷ []

abbrev pub same_kind : Kind → Kind → Bool
same_kind row row = true
same_kind col col = true
same_kind diag diag = true
same_kind _ _ = false

-- `kind in enabled_set`
abbrev pub kind_in : Kind → List Kind → Bool
kind_in k [] = false
kind_in k (e ∷ es) = same_kind e k || kind_in k es

-- `all(marks[r][c] for r, c in cells)`
abbrev pub all_marked : List (List Bool) → List (ℕ × ℕ) → Bool
all_marked marks [] = true
all_marked marks (rc ∷ rest) = get_or (get_or marks rc.0 []) rc.1 false && all_marked marks rest

-- The loop of `winning_patterns`.
unfoldable pub won_of : List (List Bool) → List Kind → List Pattern → List Pattern
won_of marks enabled [] = []
won_of marks enabled (p ∷ ps) =
    let rest = won_of marks enabled ps in
    if kind_in p.kind enabled && all_marked marks p.cells then p ∷ rest else rest

unfoldable pub winning_patterns : Grid → List ℕ → List Kind → List Pattern
unfolding won_of mark_grid
winning_patterns grid called enabled = won_of (mark_grid grid called) enabled all_patterns

abbrev pub min_winning_lines : ℕ
min_winning_lines = 2

unfoldable pub has_won : Grid → List ℕ → List Kind → ℕ → Bool
unfolding winning_patterns
has_won grid called enabled min_lines =
    leb min_lines (length (winning_patterns grid called enabled))

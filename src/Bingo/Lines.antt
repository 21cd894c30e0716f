-- ===== src/Bingo/Lines.antt =====
-- What a winning line is, and that a win is never lost by a further call.
use igame.Common.{
  ℕ, zero, suc, ◌+◌, ◌≤◌, ◌<◌, ltb, if◌then◌else◌, ◌≡◌, refl, Bool, true, false, ◌&&◌, List, [],
  ◌∷◌, map, arith, leb, ap, ◌∙◌, length, get_or, Bool-cases, inl, inr,
}
use igame.Common.Counts.{range, contains}
use igame.Common.Result.{Result, ok, err}
use igame.Bingo.{
  Grid, Letter, letter_for, column_start, ValueError, not_a_bingo_number, cell, mark, mark_grid,
  Kind, Pattern, all_patterns, kind_in, all_marked, won_of, winning_patterns, has_won,
}

abbrev pub Lettered : ℕ → Result ValueError Letter → Type 0
Lettered k (ok l) = (1 ≤ k) × (k ≤ 75) × (column_start l ≤ k) × (k ≤ column_start l + 14)
Lettered k (err e) = (e ≡ not_a_bingo_number k) × ¬ ((1 ≤ k) × (k ≤ 75))

-- `letter_for` returns only for a number from 1 to 75, and then the letter whose column of fifteen
-- holds the number; it raises only for any other number.
pub letter_for-Lettered : (k : ℕ) → Lettered k (letter_for k)
unfolding letter_for
letter_for-Lettered k = ground arith

-- Every number of `xs` is one of `ys`.
abbrev pub Covers : List ℕ → List ℕ → Type 0
Covers ys xs = (a : ℕ) → contains a xs ≡ true → contains a ys ≡ true

-- The lines of a pattern, read off the grid: every cell is the free one or has been called.
abbrev pub complete : Grid → List ℕ → List (ℕ × ℕ) → Bool
complete grid called [] = true
complete grid called (rc ∷ rest) = mark grid called rc.0 rc.1 && complete grid called rest

get_or-map-range {ℓ} :
    {A : Type ℓ} (f : ℕ → A) (d : A) (n lo i : ℕ)
    → get_or (map f (range lo n)) i d ≡ (if ltb i n then f (lo + i) else d)
get_or-map-range f d zero lo i = ground arith
get_or-map-range f d (suc n) lo zero = let e : lo + 0 ≡ lo = omega arith in rw e (ground arith)
get_or-map-range f d (suc n) lo (suc i) =
    let e : lo + suc i ≡ lo + 1 + i = omega arith in
    rw (get_or-map-range f d n (lo + 1) i, e) (ground arith)

row_at : Grid → List ℕ → ℕ → List Bool
row_at grid called r = map (λ c. mark grid called r c) (range 0 5)

row_at-lem :
    (grid : Grid) (called : List ℕ) (r c : ℕ)
    → get_or (row_at grid called r) c false ≡ (ltb c 5 && mark grid called r c)
unfolding row_at
row_at-lem grid called r c =
    get_or-map-range (λ k. mark grid called r k) false 5 0 c
    ∙ (let e : 0 + c ≡ c = omega arith in rw e (ground arith))

-- `mark_grid` holds `mark` at each of its 25 places.
marks-at :
    (grid : Grid) (called : List ℕ) (r c : ℕ)
    → get_or (get_or (mark_grid grid called) r []) c false
      ≡ (ltb r 5 && ltb c 5 && mark grid called r c)
unfolding mark_grid
marks-at grid called r c =
    let rows : get_or (mark_grid grid called) r []
        ≡ (if ltb r 5 then row_at grid called r else []) =
      unfold row_at in
      (get_or-map-range (λ k. map (λ c. mark grid called k c) (range 0 5)) [] 5 0 r
        ∙ (let e : 0 + r ≡ r = omega arith in rw e refl)) in
    ap (λ (bs : List Bool). get_or bs c false) rows
    ∙ elim (Bool-cases (ltb r 5)) [ inl e ↦ rw e (row_at-lem grid called r c) | inr e ↦ rw e refl ]

mark-monotone :
    (grid : Grid) (called more : List ℕ)
    → Covers more called
    → (r c : ℕ) → mark grid called r c ≡ true
    → mark grid more r c ≡ true
mark-monotone grid called more h r c e = ground (arith, h (cell grid r c))

all_marked-monotone :
    (grid : Grid) (called more : List ℕ)
    → Covers more called
    → (cells : List (ℕ × ℕ)) → all_marked (mark_grid grid called) cells ≡ true
    → all_marked (mark_grid grid more) cells ≡ true
all_marked-monotone grid called more h [] e = refl
all_marked-monotone grid called more h ((r, c) ∷ rest) e = ground (
  arith,
  all_marked-monotone grid called more h rest,
  marks-at grid called r c,
  marks-at grid more r c,
  mark-monotone grid called more h r c,
)

won_of-monotone :
    (grid : Grid) (called more : List ℕ)
    → Covers more called
    → (enabled : List Kind) (ps : List Pattern)
    → length (won_of (mark_grid grid called) enabled ps)
      ≤ length (won_of (mark_grid grid more) enabled ps)
unfolding won_of
won_of-monotone grid called more h enabled [] = omega arith
won_of-monotone grid called more h enabled (p ∷ ps) = ground (
  arith,
  won_of-monotone grid called more h enabled ps,
  all_marked-monotone grid called more h p.cells,
)

verdict-monotone : (m a b : ℕ) → a ≤ b → leb m a ≡ true → leb m b ≡ true
verdict-monotone m a b h e = ground arith

-- A card that has won still wins when more numbers have been called.
pub has_won-monotone :
    (grid : Grid) (called more : List ℕ) (enabled : List Kind) (min_lines : ℕ)
    → Covers more called
    → has_won grid called enabled min_lines ≡ true
    → has_won grid more enabled min_lines ≡ true
unfolding has_won winning_patterns
has_won-monotone grid called more enabled min_lines h e =
    verdict-monotone min_lines (length (won_of (mark_grid grid called) enabled all_patterns))
      (length (won_of (mark_grid grid more) enabled all_patterns))
      (won_of-monotone grid called more h enabled all_patterns) e

-- The lines that a grid completes, by its cells alone.
abbrev pub lines_of : Grid → List ℕ → List Kind → List Pattern → List Pattern
lines_of grid called enabled [] = []
lines_of grid called enabled (p ∷ ps) =
    if kind_in p.kind enabled && complete grid called p.cells
    then p ∷ lines_of grid called enabled ps
    else lines_of grid called enabled ps

InGrid : List (ℕ × ℕ) → Type 0
InGrid [] = Unit
InGrid ((r, c) ∷ rest) = (r < 5) × (c < 5) × InGrid rest

AllInGrid : List Pattern → Type 0
AllInGrid [] = Unit
AllInGrid (p ∷ ps) = InGrid p.cells × AllInGrid ps

all_marked-complete :
    (grid : Grid) (called : List ℕ) (cells : List (ℕ × ℕ))
    → InGrid cells
    → all_marked (mark_grid grid called) cells ≡ complete grid called cells
unfolding InGrid
all_marked-complete grid called [] h = refl
all_marked-complete grid called ((r, c) ∷ rest) h =
    ground (arith, all_marked-complete grid called rest h.2, marks-at grid called r c)

won_of-lines :
    (grid : Grid) (called : List ℕ) (enabled : List Kind) (ps : List Pattern)
    → AllInGrid ps
    → won_of (mark_grid grid called) enabled ps ≡ lines_of grid called enabled ps
unfolding won_of AllInGrid
won_of-lines grid called enabled [] h = refl
won_of-lines grid called enabled (p ∷ ps) h =
    rw (all_marked-complete grid called p.cells h.0, won_of-lines grid called enabled ps h.1)
      (ground arith)

-- The winning patterns are exactly the patterns of an enabled kind each of whose cells is the free
-- one or holds a called number, in the order of the list of patterns.
pub winning_patterns-eq-lines :
    (grid : Grid) (called : List ℕ) (enabled : List Kind)
    → winning_patterns grid called enabled ≡ lines_of grid called enabled all_patterns
unfolding winning_patterns AllInGrid InGrid
winning_patterns-eq-lines grid called enabled =
    won_of-lines grid called enabled all_patterns (omega arith)

-- Before the first call no line is complete, whatever the grid: the free cell fills none alone.
pub nothing_called : (grid : Grid) (enabled : List Kind) → winning_patterns grid [] enabled ≡ []
nothing_called grid enabled = rw winning_patterns-eq-lines (ground arith)

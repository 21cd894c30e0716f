-- ===== src/Bonuses/Rows.antt =====
-- What the active bonuses of a player add up to, and which bonuses have ended (packages/core/bonuses.py).
use igame.Common.{
  ℕ, ◌+◌, ◌<◌, ◌≡◌, refl, ap, ◌∙◌, Bool, true, false, ◌&&◌, ◌||◌, not, some, List, [], ◌∷◌, ◌++◌,
  arith, ◌==◌, length, Bool-cases, inl, inr,
}
use igame.Common.Int.{ℤ, pos, ◌+ℤ◌, int_laws}
use igame.Ledger.Balances.{if_ℤ}
use igame.Bonuses.{Bonus, is_active, find_bonus, update_bonus}

abbrev pub held : ℕ → Bonus → ℤ
held u b = if_ℤ (b.user_id == u && is_active b.status) b.amount

unfoldable pub active_total : ℕ → List Bonus → ℤ
active_total u [] = pos 0
active_total u (b ∷ bs) = held u b +ℤ active_total u bs

abbrev pub InOrder : ℕ → List Bonus → Type 0
InOrder n [] = Unit
InOrder n (b ∷ bs) = (b.id ≡ n) × InOrder (n + 1) bs

-- Whether the bonus with a number has ended.
unfoldable pub has_ended : ℕ → List Bonus → Bool
has_ended id [] = false
has_ended id (b ∷ bs) = (b.id == id && not (is_active b.status)) || has_ended id bs

pub InOrder-append :
    (n : ℕ) (bs : List Bonus) (b : Bonus)
    → InOrder n bs
    → b.id ≡ n + length bs
    → InOrder n (bs ++ b ∷ [])
InOrder-append n [] b h e = (omega (arith, e), tt)
InOrder-append n (x ∷ bs) b (h, more) e = (h, InOrder-append (n + 1) bs b more (omega (arith, e)))

pub active_total-append :
    (u : ℕ) (bs : List Bonus) (b : Bonus)
    → active_total u (bs ++ b ∷ []) ≡ active_total u bs +ℤ held u b
unfolding active_total
active_total-append u [] b = grind int_laws
active_total-append u (x ∷ bs) b = grind (int_laws, active_total-append u bs b)

pub has_ended-append :
    (id : ℕ) (bs : List Bonus) (b : Bonus)
    → is_active b.status ≡ true
    → has_ended id (bs ++ b ∷ []) ≡ has_ended id bs
unfolding has_ended
has_ended-append id [] b a = ground (arith, a)
has_ended-append id (x ∷ bs) b a = ground (arith, has_ended-append id bs b a)

update_none :
    (f : Bonus → Bonus) (id n : ℕ) (bs : List Bonus)
    → InOrder n bs
    → id < n
    → update_bonus f id bs ≡ bs
unfolding update_bonus
update_none f id n [] o l = refl
update_none f id n (x ∷ bs) (h, more) l =
    ground (arith, h, l, update_none f id (n + 1) bs more (omega (arith, l)))

not_ended_before : (id n : ℕ) (bs : List Bonus) → InOrder n bs → id < n → has_ended id bs ≡ false
unfolding has_ended
not_ended_before id n [] o l = refl
not_ended_before id n (x ∷ bs) (h, more) l =
    ground (arith, h, l, not_ended_before id (n + 1) bs more (omega (arith, l)))

module _ (f : Bonus → Bonus) (keeps : (b : Bonus) → (f b).id ≡ b.id) where
  pub InOrder-update :
      (id n : ℕ) (bs : List Bonus) → InOrder n bs → InOrder n (update_bonus f id bs)
  unfolding update_bonus
  InOrder-update id n [] o = tt
  InOrder-update id n (x ∷ bs) (h, more) = elim (Bool-cases (x.id == id)) [
    | inl hit ↦ (rw hit (keeps x ∙ h), InOrder-update id (n + 1) bs more)
    | inr miss ↦ (rw miss h, InOrder-update id (n + 1) bs more)
  ]

  pub active_total-update :
      (u id n : ℕ) (bs : List Bonus) (b : Bonus)
      → InOrder n bs
      → find_bonus id bs ≡ some b
      → active_total u (update_bonus f id bs) +ℤ held u b ≡ active_total u bs +ℤ held u (f b)
  unfolding active_total update_bonus find_bonus
  active_total-update u id n [] b o e = cc
  active_total-update u id n (x ∷ bs) b (h, more) e = elim (Bool-cases (x.id == id)) [
    | inl hit ↦
        let same : x ≡ b = ground (arith, hit, e) in
        let rest = update_none f id (n + 1) bs more (ground (arith, hit, h)) in
        rw (hit, rest, same) (grind int_laws)
    | inr miss ↦
        let rest = active_total-update u id (n + 1) bs b more (ground (arith, miss, e)) in
        rw miss (grind (int_laws, rest))
  ]

  -- An end ends its own bonus, and no other.
  pub has_ended-update :
      (k id n : ℕ) (bs : List Bonus) (b : Bonus)
      → InOrder n bs
      → find_bonus id bs ≡ some b
      → is_active (f b).status ≡ false
      → has_ended k (update_bonus f id bs) ≡ ((id == k) || has_ended k bs)
  unfolding has_ended update_bonus find_bonus
  has_ended-update k id n [] b o e a = cc
  has_ended-update k id n (x ∷ bs) b (h, more) e a = elim (Bool-cases (x.id == id)) [
    | inl hit ↦
        let same : x ≡ b = ground (arith, hit, e) in
        let rest = update_none f id (n + 1) bs more (ground (arith, hit, h)) in
        let closed : is_active (f x).status ≡ false =
          ap (λ (y : Bonus). is_active (f y).status) same ∙ a in
        rw (hit, rest) (ground (arith, closed, keeps x, hit))
    | inr miss ↦
        let rest = has_ended-update k id (n + 1) bs b more (ground (arith, miss, e)) a in
        rw (miss, rest) (ground arith)
  ]

pub active-not_ended :
    (id n : ℕ) (bs : List Bonus) (b : Bonus)
    → InOrder n bs
    → find_bonus id bs ≡ some b
    → is_active b.status ≡ true
    → has_ended id bs ≡ false
unfolding has_ended find_bonus
active-not_ended id n [] b o e a = refl
active-not_ended id n (x ∷ bs) b (h, more) e a = elim (Bool-cases (x.id == id)) [
  | inl hit ↦
      let same : x ≡ b = ground (arith, hit, e) in
      let running : is_active x.status ≡ true = ap (λ (y : Bonus). is_active y.status) same ∙ a in
      let rest = not_ended_before id (n + 1) bs more (ground (arith, hit, h)) in
      ground (arith, running, rest)
  | inr miss ↦
      ground (arith, miss, active-not_ended id (n + 1) bs b more (ground (arith, miss, e)) a)
]

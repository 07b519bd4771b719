-- ===== src/Store/Sql.antt =====
-- SELECT and UPDATE over the rows of a table.

use schlass.Base.{
  ℕ, suc, ◌≡◌, refl, Bool, true, false, Option, none, some, List, [], ◌∷◌, arith, if◌then◌else◌,
  Bool-cases, All, inl, inr,
}

module _ {ℓ} {A : Type ℓ} where
  -- The first row that meets the condition: SELECT … WHERE … LIMIT 1.
  unfoldable pub find : (A → Bool) → List A → Option A
  find p [] = none
  find p (r ∷ rs) = if p r then some r else find p rs

  -- UPDATE … SET … WHERE ….
  unfoldable pub update_where : (A → Bool) → (A → A) → List A → List A
  update_where p f [] = []
  update_where p f (r ∷ rs) = (if p r then f r else r) ∷ update_where p f rs

  -- How many rows meet the condition: RowsAffected of an UPDATE or a DELETE.
  unfoldable pub count_where : (A → Bool) → List A → ℕ
  count_where p [] = 0
  count_where p (r ∷ rs) = let n = count_where p rs in if p r then suc n else n

  -- SELECT … WHERE …, and what a DELETE with the opposite condition leaves.
  unfoldable pub select_where : (A → Bool) → List A → List A
  select_where p [] = []
  select_where p (r ∷ rs) = let kept = select_where p rs in if p r then r ∷ kept else kept

  -- A row that is found meets the condition.
  pub find_meets : (p : A → Bool) (rs : List A) {r : A} → find p rs ≡ some r → p r ≡ true
  unfolding find
  find_meets p [] e = ground arith
  find_meets p (r ∷ rs) {r = s} e = elim (Bool-cases (p r)) [
    | inl h ↦ let same : r ≡ s = ground arith in ground arith
    | inr h ↦ find_meets p rs (ground arith)
  ]

  pub find-none : (p : A → Bool) (rs : List A) → All (λ r. p r ≡ false) rs → find p rs ≡ none
  unfolding find
  find-none p [] h = refl
  find-none p (r ∷ rs) (h, hs) = ground (arith, find-none p rs hs)

  -- When no updated row and no row left alone meets `q`, no row of the updated table does.
  pub update_where-All :
      (p q : A → Bool) (f : A → A) (rs : List A)
      → ((r : A) → q (if p r then f r else r) ≡ false)
      → All (λ r. q r ≡ false) (update_where p f rs)
  unfolding update_where
  update_where-All p q f [] h = tt
  update_where-All p q f (r ∷ rs) h = (h r, update_where-All p q f rs h)

  -- An update that makes no row meet `p` keeps a table without such a row.
  pub find-update_where :
      (p q : A → Bool) (f : A → A) (rs : List A)
      → ((r : A) → p (f r) ≡ false)
      → find p rs ≡ none
      → find p (update_where q f rs) ≡ none
  unfolding find update_where
  find-update_where p q f [] h e = refl
  find-update_where p q f (r ∷ rs) h e = ground (arith, h r, find-update_where p q f rs h)

  -- An update of rows that meet `p` neither before nor after it leaves what `p` finds.
  pub find-update_where_other :
      (p q : A → Bool) (f : A → A) (rs : List A)
      → ((r : A) → q r ≡ true → (p r ≡ false) × (p (f r) ≡ false))
      → find p (update_where q f rs) ≡ find p rs
  unfolding find update_where
  find-update_where_other p q f [] h = refl
  find-update_where_other p q f (r ∷ rs) h =
      let rest = find-update_where_other p q f rs h in
      elim (Bool-cases (q r)) [
        | inl met ↦ rw (met, (h r met).0, (h r met).1) rest
        | inr unmet ↦ rw (unmet, rest) refl
      ]

  -- An update of the rows that another one updated, which are still the rows that it is for.
  pub update_where-update_where :
      (p : A → Bool) (f g : A → A) (rs : List A)
      → ((r : A) → p (f r) ≡ p r)
      → update_where p g (update_where p f rs) ≡ update_where p (λ r. g (f r)) rs
  unfolding update_where
  update_where-update_where p f g [] kept = refl
  update_where-update_where p f g (r ∷ rs) kept =
      let rest = update_where-update_where p f g rs kept in
      elim (Bool-cases (p r)) [
        | inl met ↦ rw (met, kept r, met, rest) refl
        | inr unmet ↦ rw (unmet, unmet, rest) refl
      ]

-- ===== src/Store/Counts.antt =====
-- What updates and deletes make of a count, and of a search that found nothing.
use schlass.Base.{
  ◌≤◌, ◌≡◌, refl, Bool, true, false, none, List, [], ◌∷◌, arith, Bool-cases, All, inl, inr,
}
use schlass.Store.Sql.{find, update_where, count_where, select_where}

module _ {ℓ} {A : Type ℓ} where
  -- An update that keeps the rows that are counted.
  pub count_where-update_where :
      (p q : A → Bool) (f : A → A) (rs : List A)
      → All (λ r. p r ≡ true → q r ≡ true → p (f r) ≡ true) rs
      → count_where p rs ≤ count_where p (update_where q f rs)
  unfolding count_where update_where
  count_where-update_where p q f [] h = omega arith
  count_where-update_where p q f (r ∷ rs) (h, hs) =
      ground (arith, h, count_where-update_where p q f rs hs)

  -- A delete that keeps them.
  pub count_where-select_where :
      (p keep : A → Bool) (rs : List A)
      → All (λ r. p r ≡ true → keep r ≡ true) rs
      → count_where p rs ≤ count_where p (select_where keep rs)
  unfolding count_where select_where
  count_where-select_where p keep [] h = omega arith
  count_where-select_where p keep (r ∷ rs) (h, hs) =
      ground (arith, h, count_where-select_where p keep rs hs)

  pub find-none-update_where :
      (p q : A → Bool) (f : A → A) (rs : List A)
      → ((r : A) → p (f r) ≡ p r)
      → find p rs ≡ none
      → find p (update_where q f rs) ≡ none
  unfolding find update_where
  find-none-update_where p q f [] h e = refl
  find-none-update_where p q f (r ∷ rs) h e = ground (arith, h r, find-none-update_where p q f rs h)

  pub find-none-select_where :
      (p keep : A → Bool) (rs : List A) → find p rs ≡ none → find p (select_where keep rs) ≡ none
  unfolding find select_where
  find-none-select_where p keep [] e = refl
  find-none-select_where p keep (r ∷ rs) e = ground (arith, find-none-select_where p keep rs)

  pub none_meets : (p : A → Bool) (rs : List A) → find p rs ≡ none → All (λ r. p r ≡ false) rs
  unfolding find
  none_meets p [] e = tt
  none_meets p (r ∷ rs) e = elim (Bool-cases (p r)) [
    | inl found ↦ let it = rw found at e in cc
    | inr other ↦ (other, none_meets p rs (rw other at e))
  ]

-- ===== src/Sql/Rows.antt =====
-- Tables as lists of rows: `INSERT` under a uniqueness constraint, `UPDATE ... WHERE`,
-- `SELECT ... WHERE ... LIMIT 1` and `SELECT count(*)`.
use go_commerce_microservice.Prelude.{
  ℕ, suc, ◌+◌, ◌≡◌, refl, ap, Bool, true, false, ◌||◌, Option, none, some, List, [], ◌∷◌, ◌++◌,
  arith, ltb, if◌then◌else◌, length,
}

module _ {A : Type 0} where
  unfoldable pub any : (A → Bool) → List A → Bool
  any p [] = false
  any p (x ∷ xs) = p x || any p xs

  unfoldable pub count_where : (A → Bool) → List A → ℕ
  count_where p [] = 0
  count_where p (x ∷ xs) = (if p x then 1 else 0) + count_where p xs

  unfoldable pub first_where : (A → Bool) → List A → Option A
  first_where p [] = none
  first_where p (x ∷ xs) = let rest = first_where p xs in if p x then some x else rest

  unfoldable pub update_where : (A → Bool) → (A → A) → List A → List A
  update_where p f [] = []
  update_where p f (x ∷ xs) = (if p x then f x else x) ∷ update_where p f xs

  unfoldable pub select_where : (A → Bool) → List A → List A
  select_where p [] = []
  select_where p (x ∷ xs) = let rest = select_where p xs in if p x then x ∷ rest else rest

  -- `none` when the new row clashes with an old one.
  unfoldable pub insert_unique : (A → A → Bool) → A → List A → Option (List A)
  insert_unique clash row rows = if any (clash row) rows then none else some (rows ++ row ∷ [])

  pub any-append : (p : A → Bool) (xs ys : List A) → any p (xs ++ ys) ≡ (any p xs || any p ys)
  unfolding any
  any-append p [] ys = refl
  any-append p (x ∷ xs) ys = ground (arith, any-append p xs ys)

  pub count_where-pos : (p : A → Bool) (xs : List A) → ltb 0 (count_where p xs) ≡ any p xs
  unfolding any count_where
  count_where-pos p [] = refl
  count_where-pos p (x ∷ xs) = ground (arith, count_where-pos p xs)

  pub length-update_where :
      (p : A → Bool) (f : A → A) (xs : List A) → length (update_where p f xs) ≡ length xs
  unfolding update_where
  length-update_where p f [] = refl
  length-update_where p f (x ∷ xs) = ap suc (length-update_where p f xs)

  pub select_where-append :
      (p : A → Bool) (xs ys : List A)
      → select_where p (xs ++ ys) ≡ select_where p xs ++ select_where p ys
  unfolding select_where
  select_where-append p [] ys = refl
  select_where-append p (x ∷ xs) ys = ground (arith, select_where-append p xs ys)

  -- An update that no row meets changes nothing.
  pub update_where-none :
      (p : A → Bool) (f : A → A) (xs : List A) → any p xs ≡ false → update_where p f xs ≡ xs
  unfolding any update_where
  update_where-none p f [] h = refl
  update_where-none p f (x ∷ xs) h = ground (arith, update_where-none p f xs)

  pub first_where-holds :
      (p : A → Bool) (xs : List A) (x : A) → first_where p xs ≡ some x → p x ≡ true
  unfolding first_where
  first_where-holds p [] x h = ground arith
  first_where-holds p (y ∷ xs) x h = ground (arith, first_where-holds p xs x)

  pub any-of_first_where :
      (p : A → Bool) (xs : List A) (x : A) → first_where p xs ≡ some x → any p xs ≡ true
  unfolding any first_where
  any-of_first_where p [] x h = ground arith
  any-of_first_where p (y ∷ xs) x h = ground (arith, any-of_first_where p xs x)

  pub any-append_self :
      (p : A → Bool) (xs : List A) (x : A) → p x ≡ true → any p (xs ++ x ∷ []) ≡ true
  unfolding any
  any-append_self p [] x h = ground arith
  any-append_self p (y ∷ xs) x h = ground (arith, any-append_self p xs x h)

  pub any-or_left :
      (p q : A → Bool) (xs : List A) → any (λ x. p x || q x) xs ≡ false → any p xs ≡ false
  unfolding any
  any-or_left p q [] h = refl
  any-or_left p q (x ∷ xs) h = ground (arith, any-or_left p q xs)

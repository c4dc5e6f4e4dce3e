-- ===== src/Api/Maintenance/Rows.antt =====
-- The rows of a table that is purged or not.
use proxy_sentinel.Base.{
  ◌≡◌, ◌∙◌, sym, ap, refl, inl, inr, Bool, true, false, ◌||◌, List, [], ◌∷◌, ◌++◌, nat_eq, list_eq,
  if◌then◌else◌, keep, Bool-cases,
}

module _ {ℓ} {A : Type ℓ} (p : A → Bool) where
  keep-append : (xs ys : List A) → keep p (xs ++ ys) ≡ keep p xs ++ keep p ys
  unfolding keep
  keep-append [] ys = refl
  keep-append (x ∷ xs) ys = elim (Bool-cases (p x)) [
    | inl h ↦ rw h (ap (λ zs. x ∷ zs) (keep-append xs ys))
    | inr h ↦ rw h (keep-append xs ys)
  ]

  keep-keep : (xs : List A) → keep p (keep p xs) ≡ keep p xs
  unfolding keep
  keep-keep [] = refl
  keep-keep (x ∷ xs) = elim (Bool-cases (p x)) [
    | inl h ↦ rw h (rw h (ap (λ zs. x ∷ zs) (keep-keep xs)))
    | inr h ↦ rw h (keep-keep xs)
  ]

  -- The rows of a table that is purged or not.
  unfoldable pub purged : Bool → List A → List A
  purged b xs = if b then keep p xs else xs

  purged-keep : (b : Bool) (xs : List A) → purged b (keep p xs) ≡ keep p xs
  unfolding purged
  purged-keep true xs = keep-keep xs
  purged-keep false xs = refl

  pub purged-append :
      (b : Bool) (xs : List A) (x : A)
      → p x ≡ true
      → purged b (xs ++ x ∷ []) ≡ purged b xs ++ x ∷ []
  unfolding purged
  purged-append true xs x h =
      keep-append xs (x ∷ []) ∙ ap (λ ys. keep p xs ++ ys) (unfold keep in rw h)
  purged-append false xs x h = refl

  -- Two purges in a row are one.
  pub joined :
      (a b n : Bool) (x y z : List A)
      → a ≡ b
      → y ≡ purged b x
      → z ≡ purged n y
      → z ≡ purged (a || n) x
  joined a b n x y z same first second =
      second ∙ ap (purged n) first ∙ both b ∙ sym (ap (λ c. purged (c || n) x) same)
    where
      both : (c : Bool) → purged n (purged c x) ≡ purged (c || n) x
      both true = unfold purged in purged-keep n x
      both false = unfold purged in refl

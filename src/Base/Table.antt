-- ===== src/Base/Table.antt =====
-- A database table as the list of its rows, in the order of their ids, with what a SELECT of one row, an
-- UPDATE and a DELETE with a condition do to it.
use mathlib.Core.Path.{◌≡◌, refl, subst}
use mathlib.Core.Logic.{◌⊎◌, inl, inr}
use mathlib.Core.Bool.{Bool, true, false}
use mathlib.Core.Option.{Option, none, some}
use mathlib.Core.List.{List, [], ◌∷◌}
use native.Mathlib.Omega.{arith}
use proxy_sentinel.Base.Tests.{if◌then◌else◌, Bool-cases}
use proxy_sentinel.Base.Lists.{All}

module _ {ℓ} {A : Type ℓ} where
  unfoldable pub find_row : (A → Bool) → List A → Option A
  find_row p [] = none
  find_row p (x ∷ xs) = let rest = find_row p xs in if p x then some x else rest

  unfoldable pub update_rows : (A → Bool) → (A → A) → List A → List A
  update_rows p f [] = []
  update_rows p f (x ∷ xs) = (if p x then f x else x) ∷ update_rows p f xs

  unfoldable pub delete_rows : (A → Bool) → List A → List A
  delete_rows p [] = []
  delete_rows p (x ∷ xs) = let rest = delete_rows p xs in if p x then rest else x ∷ rest

  -- `SELECT COUNT(*) ... > 0`
  unfoldable pub has_row : (A → Bool) → List A → Bool
  has_row p xs = elim (find_row p xs) [ none ↦ false | some x ↦ true ]

  pub find_row-true : (p : A → Bool) (xs : List A) (x : A) → find_row p xs ≡ some x → p x ≡ true
  unfolding find_row
  find_row-true p [] x e = absurd (ground (arith, e))
  find_row-true p (y ∷ ys) x e = elim (Bool-cases (p y)) [
    | inl hit ↦ ground (arith, hit, e)
    | inr miss ↦ find_row-true p ys x (ground (arith, miss, e))
  ]

  pub find_row-All :
      (P : A → Type 0) (p : A → Bool) (xs : List A) (x : A)
      → All P xs
      → find_row p xs ≡ some x
      → P x
  unfolding find_row
  find_row-All P p [] x h e = absurd (ground (arith, e))
  find_row-All P p (y ∷ ys) x (h, hs) e = elim (Bool-cases (p y)) [
    | inl hit ↦ let same : y ≡ x = ground (arith, hit, e) in subst P same h
    | inr miss ↦ find_row-All P p ys x hs (ground (arith, miss, e))
  ]

  -- Nothing is found behind a deletion of all that is looked for.
  pub find_row-delete_rows :
      (p q : A → Bool) (xs : List A)
      → All (λ x. (p x ≡ false) ⊎ (q x ≡ true)) xs
      → find_row p (delete_rows q xs) ≡ none
  unfolding find_row delete_rows
  find_row-delete_rows p q [] h = refl
  find_row-delete_rows p q (x ∷ xs) (h, hs) = elim (Bool-cases (q x)) [
    | inl gone ↦ rw gone (find_row-delete_rows p q xs hs)
    | inr kept ↦ rw kept (ground (arith, kept, h, find_row-delete_rows p q xs hs))
  ]

  -- An update that does not change what is looked for is seen on the row that is found.
  pub find_row-update_rows :
      (p q : A → Bool) (f : A → A) (xs : List A) (x : A)
      → ((y : A) → p (f y) ≡ p y)
      → find_row p xs ≡ some x
      → find_row p (update_rows q f xs) ≡ some (if q x then f x else x)
  unfolding find_row update_rows
  find_row-update_rows p q f [] x same e = absurd (ground (arith, e))
  find_row-update_rows p q f (y ∷ ys) x same e = elim (Bool-cases (q y)) [
    | inl hit ↦ rw hit (ground (arith, hit, same y, e, find_row-update_rows p q f ys x same))
    | inr miss ↦ rw miss (ground (arith, miss, e, find_row-update_rows p q f ys x same))
  ]

-- ===== src/Storage/Paging/Pages.antt =====
-- The pages of a listing, one behind the other.
use native.Mathlib.Nat.{zero-add, suc-add, suc-mul, zero-mul}
use proxy_sentinel.Base.Int.{ℤ, pos, pos_part}
use proxy_sentinel.Base.{
  ℕ, zero, suc, ◌+◌, ◌-◌, ◌*◌, ◌%◌, ◌^◌, ◌<◌, ◌≤◌, ◌≡◌, ◌∙◌, refl, sym, ap, Bool, List, [], ◌∷◌,
  ◌++◌, arith, take, drop,
}
use proxy_sentinel.Storage.Paging.{page_number, page_size, offset, newest, page_of}

below : (k size : ℕ) → suc k * size < 2 ^ 63 → k * size < 2 ^ 63
below k size fits = omega (arith, suc-mul k size)

page_number_later : (k : ℕ) → page_number (pos (suc k)) ≡ pos (suc k)
unfolding page_number
page_number_later k = ground arith

page_size_fits : (size : ℕ) → 1 ≤ size → size ≤ 200 → page_size (pos size) ≡ pos size
unfolding page_size
page_size_fits size low high = ground arith

offset_exact : (k size : ℕ) → k * size < 2 ^ 63 → offset (pos (suc k)) (pos size) ≡ k * size
unfolding offset
offset_exact k size fits =
    let back : suc k - 1 ≡ k = omega arith in
    let at_ : (suc k - 1) * size % 2 ^ 64 ≡ k * size =
      ap (λ n. n * size % 2 ^ 64) back ∙ omega (arith, fits) in
    ground (arith, at_, fits)

module _ {ℓ} {A : Type ℓ} where
  take-nil : (n : ℕ) → take {A = A} n [] ≡ []
  take-nil zero = refl
  take-nil (suc n) = refl

  take-add : (m n : ℕ) (xs : List A) → take (m + n) xs ≡ take m xs ++ take n (drop m xs)
  take-add zero n xs = rw zero-add
  take-add (suc m) n [] = rw (suc-add m n, take-nil n)
  take-add (suc m) n (x ∷ xs) = rw (suc-add m n) (ap (λ ys. x ∷ ys) (take-add m n xs))

  -- The first `k` pages, one behind the other.
  unfoldable pub pages : (A → Bool) → ℕ → ℤ → List A → List A
  pages p zero size rows = []
  pages p (suc k) size rows = pages p k size rows ++ page_of p (pos (suc k)) size rows

  page_of-slice :
      (p : A → Bool) (k size : ℕ) (rows : List A)
      → 1 ≤ size
      → size ≤ 200
      → suc k * size < 2 ^ 63
      → page_of p (pos (suc k)) (pos size) rows ≡ take size (drop (k * size) (newest p rows))
  unfolding page_of page_number page_size offset
  page_of-slice p k size rows low high fits =
      ap
        (λ n.
          take (pos_part (page_size (pos size)))
            (drop (offset n (page_size (pos size))) (newest p rows)))
        (page_number_later k)
      ∙ ap (λ n. take (pos_part n) (drop (offset (pos (suc k)) n) (newest p rows)))
          (page_size_fits size low high)
      ∙ ap (λ n. take size (drop n (newest p rows))) (offset_exact k size (below k size fits))

  -- With a page size from 1 to 200, the first `k` pages are the newest `k` times so many records that
  -- match, each once and in order.
  pub pages-take :
      (p : A → Bool) (k size : ℕ) (rows : List A)
      → 1 ≤ size
      → size ≤ 200
      → k * size < 2 ^ 63
      → pages p k (pos size) rows ≡ take (k * size) (newest p rows)
  unfolding pages
  pages-take p zero size rows low high fits = rw zero-mul
  pages-take p (suc k) size rows low high fits =
      let xs = newest p rows in
      ap (λ ys. ys ++ page_of p (pos (suc k)) (pos size) rows)
        (pages-take p k size rows low high (below k size fits))
      ∙ ap (λ ys. take (k * size) xs ++ ys) (page_of-slice p k size rows low high fits)
      ∙ sym (take-add (k * size) size xs)
      ∙ ap (λ n. take n xs) (omega (arith, suc-mul k size))

-- ===== src/Storage/Paging.antt =====
-- LIMIT and OFFSET as internal/storage/logs.go and internal/storage/audit.go compute them, over the rows in
-- the order of their ids.
pub mod Pages
use proxy_sentinel.Base.Int.{ℤ, pos, pos_part, ltb_ℤ}
use proxy_sentinel.Base.{
  ℕ, ◌+◌, ◌-◌, ◌*◌, ◌%◌, ◌^◌, Bool, ◌||◌, List, ltb, if◌then◌else◌, take, drop, keep, reverse,
}

unfoldable pub page_number : ℤ → ℤ
page_number page = if ltb_ℤ page (pos 1) then pos 1 else page

unfoldable pub page_size : ℤ → ℤ
page_size size = if ltb_ℤ size (pos 1) || ltb_ℤ (pos 200) size then pos 50 else size

-- `(page - 1) * size` wraps around in 64 bits, and SQLite takes a negative offset as 0.
unfoldable pub offset : ℤ → ℤ → ℕ
offset page size =
    let n = (pos_part page - 1) * pos_part size % 2 ^ 64 in if ltb n (2 ^ 63) then n else 0

-- `WHERE ... ORDER BY id DESC`
unfoldable pub newest {ℓ} : {A : Type ℓ} → (A → Bool) → List A → List A
newest p rows = reverse (keep p rows)

-- `... LIMIT ? OFFSET ?`
unfoldable pub page_of {ℓ} : {A : Type ℓ} → (A → Bool) → ℤ → ℤ → List A → List A
unfolding newest
page_of p page size rows =
    let number = page_number page in
    let limit = page_size size in take (pos_part limit) (drop (offset number limit) (newest p rows))

-- ===== src/Logger/Mask/Ascii.antt =====
-- The masking of ASCII texts keeps to ASCII.
use proxy_sentinel.Base.Text.{Text}
use proxy_sentinel.Base.{
  ℕ, zero, suc, ◌-◌, ◌<◌, [], ◌∷◌, ◌++◌, arith, leb, All, All-append, length, take, drop, replicate,
  Bool-cases, inl, inr,
}
use proxy_sentinel.Logger.Mask.{mask_value}

abbrev pub IsAscii : Text → Type 0
IsAscii s = All (λ c. c < 128) s

pub take-IsAscii : (n : ℕ) (s : Text) → IsAscii s → IsAscii (take n s)
take-IsAscii zero s h = tt
take-IsAscii (suc n) [] h = tt
take-IsAscii (suc n) (c ∷ s) (h, hs) = (h, take-IsAscii n s hs)

pub drop-IsAscii : (n : ℕ) (s : Text) → IsAscii s → IsAscii (drop n s)
drop-IsAscii zero s h = h
drop-IsAscii (suc n) [] h = tt
drop-IsAscii (suc n) (c ∷ s) (h, hs) = drop-IsAscii n s hs

stars-IsAscii : (n : ℕ) → IsAscii (replicate n b'*')
stars-IsAscii zero = tt
stars-IsAscii (suc n) = (omega arith, stars-IsAscii n)

pub mask_value-IsAscii : (v : Text) → IsAscii v → IsAscii (mask_value v)
unfolding mask_value
mask_value-IsAscii v h = elim (Bool-cases (leb (length v) 2)) [
  | inl short ↦ rw short (stars-IsAscii (length v))
  | inr long ↦ rw long (
      All-append (λ c. c < 128) (take 2 v) (replicate (length v - 2) b'*') (take-IsAscii 2 v h)
        (stars-IsAscii (length v - 2)))
]

-- What is put around and behind a masked value is ASCII.
pub replaced-IsAscii :
    (body : Text) (i : ℕ) (masked : Text) (next : ℕ)
    → IsAscii body
    → IsAscii masked
    → IsAscii (take i body ++ (b'"' ∷ (masked ++ (b'"' ∷ drop next body))))
replaced-IsAscii body i masked next h m =
    All-append (λ c. c < 128) (take i body) (b'"' ∷ (masked ++ (b'"' ∷ drop next body)))
      (take-IsAscii i body h)
      (
        omega arith,
        All-append (λ c. c < 128) masked (b'"' ∷ drop next body) m
            (omega arith, drop-IsAscii next body h),
      )

-- ===== src/Logger/Mask/Lengths.antt =====
-- What the searches of the masking find lies inside the text.
use proxy_sentinel.Base.Affix.{text_eq_iff}
use proxy_sentinel.Base.Text.{Text, has_prefix, index_byte}
use proxy_sentinel.Base.{
  ℕ, zero, suc, ◌+◌, ◌<◌, ◌≤◌, ◌≡◌, inl, inr, ap, true, [], ◌∷◌, some, arith, ◌==◌, nat_eq, list_eq,
  length, get_elem?, Bool-cases, Option-cases,
}
use proxy_sentinel.Logger.Mask.{index_of, closing_quote}

has_prefix-length : (p s : Text) → has_prefix p s ≡ true → length p ≤ length s
unfolding has_prefix
has_prefix-length [] s h = omega arith
has_prefix-length (c ∷ p) [] h = absurd (ground (arith, h))
has_prefix-length (c ∷ p) (d ∷ s) h =
    let rest = has_prefix-length p s (ground (arith, h)) in omega arith

pub index_of-length : (p s : Text) (i : ℕ) → index_of p s ≡ some i → i + length p ≤ length s
unfolding index_of
index_of-length p [] i e = elim (Bool-cases (p == [])) [
  | inl empty ↦
      let none_ : length p ≡ 0 = ap length ((text_eq_iff p []).0 empty) in
      let at_front : i ≡ 0 = ground (arith, empty, e) in omega (arith, none_, at_front)
  | inr full ↦ absurd (ground (arith, full, e))
]
index_of-length p (c ∷ s) i e = elim (Bool-cases (has_prefix p (c ∷ s))) [
  | inl here ↦
      let at_front : i ≡ 0 = ground (arith, here, e) in
      omega (arith, at_front, has_prefix-length p (c ∷ s) here)
  | inr later ↦ elim (Option-cases (index_of p s)) [
    | inl missing ↦ absurd (ground (arith, later, missing, e))
    | inr (j, found) ↦
        let next : i ≡ suc j = ground (arith, later, found, e) in
        omega (arith, next, index_of-length p s j found)
  ]
]

pub index_byte-length : (b : ℕ) (s : Text) (i : ℕ) → index_byte b s ≡ some i → i < length s
unfolding index_byte
index_byte-length b [] i e = absurd (ground (arith, e))
index_byte-length b (c ∷ s) i e = elim (Bool-cases (c == b)) [
  | inl here ↦ ground (arith, here, e)
  | inr later ↦ elim (Option-cases (index_byte b s)) [
    | inl missing ↦ absurd (ground (arith, later, missing, e))
    | inr (j, found) ↦
        let next : i ≡ suc j = ground (arith, later, found, e) in
        omega (arith, next, index_byte-length b s j found)
  ]
]

pub closing_quote-length : (s : Text) (i : ℕ) → closing_quote s ≡ some i → i < length s
unfolding closing_quote
closing_quote-length [] i e = absurd (ground (arith, e))
closing_quote-length (c ∷ []) i e = ground (arith, e)
closing_quote-length (c ∷ d ∷ s) i e = elim (Bool-cases (c == b'\\')) [
  | inl escaped ↦ elim (Option-cases (closing_quote s)) [
    | inl open_ ↦ absurd (ground (arith, escaped, open_, e))
    | inr (j, closed) ↦
        let next : i ≡ suc (suc j) = ground (arith, escaped, closed, e) in
        omega (arith, next, closing_quote-length s j closed)
  ]
  | inr plain ↦ elim (Bool-cases (c == b'"')) [
    | inl here ↦ let at_front : i ≡ 0 = ground (arith, plain, here, e) in omega (arith, at_front)
    | inr later ↦ elim (Option-cases (closing_quote (d ∷ s))) [
      | inl open_ ↦ absurd (ground (arith, plain, later, open_, e))
      | inr (j, closed) ↦
          let next : i ≡ suc j = ground (arith, plain, later, closed, e) in
          omega (arith, next, closing_quote-length (d ∷ s) j closed)
    ]
  ]
]

pub get_elem?-length : (s : Text) (i : ℕ) (c : ℕ) → get_elem? s i ≡ some c → i < length s
get_elem?-length [] i c e = absurd (ground (arith, e))
get_elem?-length (x ∷ s) zero c e = omega arith
get_elem?-length (x ∷ s) (suc i) c e = omega (arith, get_elem?-length s i c e)

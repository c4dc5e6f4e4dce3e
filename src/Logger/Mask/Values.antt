-- ===== src/Logger/Mask/Values.antt =====
-- What the masking of a field hides.
use mathlib.Core.List.{append_assoc}
use native.Mathlib.Nat.{suc-add}
use native.Mathlib.Numerals.{add-one}
use proxy_sentinel.Base.Affix.{drop-append}
use proxy_sentinel.Base.Text.{Text, index_byte}
use proxy_sentinel.Base.{
  ℕ, suc, ◌+◌, ◌-◌, ◌≡◌, refl, sym, ap, ◌∙◌, false, [], ◌∷◌, ◌++◌, some, arith, ltb, leb, ◌==◌,
  nat_eq, if◌then◌else◌, length, get_elem?, take, drop, replicate, length-append, All,
}
use proxy_sentinel.Logger.Mask.{
  index_of, blanks, closing_quote, go_on, replace_value, mask_value, at_value, at_key, round,
  mask_from, needle_of, mask_json_string_field,
}

-- A byte that neither ends a string nor escapes.
abbrev pub IsInner : ℕ → Type 0
IsInner c = ((c == b'"') ≡ false) × ((c == b'\\') ≡ false)

closing_quote-inner :
    (v rest : Text) → All IsInner v → closing_quote (v ++ b'"' ∷ rest) ≡ some (length v)
unfolding closing_quote
closing_quote-inner [] [] h = refl
closing_quote-inner [] (d ∷ s) h = refl
closing_quote-inner (c ∷ []) rest (h, hs) = ground (arith, h, closing_quote-inner [] rest hs)
closing_quote-inner (c ∷ d ∷ v) rest (h, hs) =
    ground (arith, h, closing_quote-inner (d ∷ v) rest hs)

drop-behind : (p s : Text) (n : ℕ) → drop (length p + n) (p ++ s) ≡ drop n s
drop-behind [] s n = ap (λ k. drop k s) (omega arith)
drop-behind (c ∷ p) s n = rw (suc-add (length p) n) (drop-behind p s n)

take-behind : (p s : Text) (n : ℕ) → take (length p + n) (p ++ s) ≡ p ++ take n s
take-behind [] s n = ap (λ k. take k s) (omega arith)
take-behind (c ∷ p) s n = rw (suc-add (length p) n) (ap (λ t. c ∷ t) (take-behind p s n))

get_elem?-behind : (p s : Text) (n : ℕ) → get_elem? (p ++ s) (length p + n) ≡ get_elem? s n
get_elem?-behind [] s n = ap (λ k. get_elem? s k) (omega arith)
get_elem?-behind (c ∷ p) s n = rw (suc-add (length p) n) (get_elem?-behind p s n)

take-all : (p s : Text) → take (length p) (p ++ s) ≡ p
take-all [] s = refl
take-all (c ∷ p) s = ap (λ t. c ∷ t) (take-all p s)

-- The text with a value, and what a round makes of it.
abbrev pub with_value : Text → Text → Text → Text
with_value front v rest = front ++ b':' ∷ b'"' ∷ (v ++ b'"' ∷ rest)

-- The round at a quoted value puts the masked one in its place.
at_value-masks :
    (front v rest : Text) (key_end : ℕ)
    → All IsInner v
    → at_value (with_value front v rest) key_end (length front + 1)
      ≡ replace_value
          (with_value front v rest)
          (length front + 1)
          (mask_value v)
          (length front + 1 + 1 + length v + 1)
unfolding at_value
at_value-masks front v rest key_end inner =
    let tail_ = b':' ∷ b'"' ∷ (v ++ b'"' ∷ rest) in
    let quote : get_elem? (with_value front v rest) (length front + 1) ≡ some b'"' =
      get_elem?-behind front tail_ 1 in
    let inside : drop (length front + 1 + 1) (with_value front v rest) ≡ v ++ b'"' ∷ rest =
      ap (λ n. drop n (with_value front v rest)) (omega arith) ∙ drop-behind front tail_ 2 in
    let closed : closing_quote (drop (length front + 1 + 1) (with_value front v rest))
        ≡ some (length v) =
      ap closing_quote inside ∙ closing_quote-inner v rest inner in
    let its_value : take (length v) (drop (length front + 1 + 1) (with_value front v rest)) ≡ v =
      ap (take (length v)) inside ∙ take-all v (b'"' ∷ rest) in
    ground (arith, quote, closed, its_value)

replaced :
    (front v rest : Text)
    → replace_value
        (with_value front v rest)
        (length front + 1)
        (mask_value v)
        (length front + 1 + 1 + length v + 1)
      ≡ go_on (length front + 1 + length (mask_value v) + 2) (with_value front (mask_value v) rest)
unfolding replace_value
replaced front v rest =
    let tail_ = b':' ∷ b'"' ∷ (v ++ b'"' ∷ rest) in
    let before : take (length front + 1) (with_value front v rest) ≡ front ++ b':' ∷ [] =
      take-behind front tail_ 1 in
    let behind : drop (length front + 1 + 1 + length v + 1) (with_value front v rest) ≡ rest =
      ap (λ n. drop n (with_value front v rest)) (omega arith)
      ∙ drop-behind front tail_ (suc (suc (length v + 1)))
      ∙ drop-behind v (b'"' ∷ rest) 1 in
    ap (λ t. go_on (length front + 1 + length (mask_value v) + 2) t)
      (ap
          (λ t.
            t
            ++ (b'"'
                ∷ (mask_value v
                    ++ (b'"'
                        ∷ drop (length front + 1 + 1 + length v + 1) (with_value front v rest)))))
          before
        ∙ ap (λ t. front ++ b':' ∷ [] ++ (b'"' ∷ (mask_value v ++ (b'"' ∷ t)))) behind
        ∙ append_assoc front (b':' ∷ []) (b'"' ∷ (mask_value v ++ b'"' ∷ rest)))

at_key-masks :
    (front v rest : Text)
    → All IsInner v
    → at_key (with_value front v rest) (length front)
      ≡ go_on (length front + 1 + length (mask_value v) + 2) (with_value front (mask_value v) rest)
unfolding at_key index_byte blanks
at_key-masks front v rest inner =
    let tail_ = b':' ∷ b'"' ∷ (v ++ b'"' ∷ rest) in
    let body = with_value front v rest in
    let test : ltb (length body) (length front) ≡ false =
      ground (arith, length-append front tail_) in
    let colon : index_byte b':' (drop (length front) body) ≡ some 0 =
      ap (index_byte b':') (drop-append front tail_) in
    let start : length front + 0 + 1 ≡ length front + 1 = omega arith in
    let none_ : blanks (drop (length front + 0 + 1) body) ≡ 0 =
      ap (λ n. blanks (drop n body)) start ∙ ap blanks (drop-behind front tail_ 1) in
    let there : length front + 0 + 1 + blanks (drop (length front + 0 + 1) body)
        ≡ length front + 1 =
      omega (arith, none_) in
    ground (
      arith,
      test,
      colon,
      ap (at_value body (length front)) there,
      at_value-masks front v rest (length front) inner,
      replaced front v rest,
    )

round-masks :
    (lower : Text → Text) (pre needle v rest : Text)
    → All IsInner v
    → index_of needle (lower (with_value (pre ++ needle) v rest)) ≡ some (length pre)
    → round lower needle 0 (with_value (pre ++ needle) v rest)
      ≡ go_on
          (length (pre ++ needle) + 1 + length (mask_value v) + 2)
          (with_value (pre ++ needle) (mask_value v) rest)
unfolding round
round-masks lower pre needle v rest inner first =
    let body = with_value (pre ++ needle) v rest in
    let test : ltb (length (lower body)) 0 ≡ false = ground arith in
    let there : 0 + length pre + length needle ≡ length (pre ++ needle) =
      omega (arith, length-append pre needle) in
    ground (arith, test, first, ap (at_key body) there, at_key-masks (pre ++ needle) v rest inner)

masked_by : ℕ → Text → Text
masked_by n front = if leb n 2 then replicate n b'*' else front ++ replicate (n - 2) b'*'

mask_value_lem :
    (v w : Text) → length v ≡ length w → take 2 v ≡ take 2 w → mask_value v ≡ mask_value w
unfolding mask_value masked_by
mask_value_lem v w size front =
    ap (λ n. masked_by n (take 2 v)) size ∙ ap (masked_by (length w)) front

length-with_value :
    (front v w rest : Text)
    → length v ≡ length w
    → length (with_value front v rest) ≡ length (with_value front w rest)
length-with_value front v w rest size = omega (
  arith,
  size,
  length-append front (b':' ∷ b'"' ∷ (v ++ b'"' ∷ rest)),
  length-append front (b':' ∷ b'"' ∷ (w ++ b'"' ∷ rest)),
  length-append v (b'"' ∷ rest),
  length-append w (b'"' ∷ rest),
)

mask_from-same :
    (lower : Text → Text) (fuel : ℕ) (needle s t : Text)
    → round lower needle 0 s ≡ round lower needle 0 t
    → mask_from lower (fuel + 1) needle 0 s ≡ mask_from lower (fuel + 1) needle 0 t
mask_from-same lower fuel needle s t same =
    rw (add-one fuel) (unfold mask_from in ground (arith, same))

-- Two texts that differ only in the value behind the first occurrence of a field's name, a string without
-- quotes and backslashes, are masked to the same text of that field when the two values have the same
-- length and the same first two bytes: nothing else of the value comes through.
pub mask_json_string_field_hides :
    (lower : Text → Text) (pre key v w rest : Text)
    → All IsInner v
    → All IsInner w
    → index_of (needle_of key) (lower (with_value (pre ++ needle_of key) v rest))
      ≡ some (length pre)
    → index_of (needle_of key) (lower (with_value (pre ++ needle_of key) w rest))
      ≡ some (length pre)
    → length v ≡ length w
    → take 2 v ≡ take 2 w
    → mask_json_string_field lower (with_value (pre ++ needle_of key) v rest) key
      ≡ mask_json_string_field lower (with_value (pre ++ needle_of key) w rest) key
unfolding mask_json_string_field
mask_json_string_field_hides lower pre key v w rest inner inner' first first' size front =
    let needle = needle_of key in
    let same : mask_value v ≡ mask_value w = mask_value_lem v w size front in
    let rounds : round lower needle 0 (with_value (pre ++ needle) v rest)
        ≡ round lower needle 0 (with_value (pre ++ needle) w rest) =
      round-masks lower pre needle v rest inner first
      ∙ ap
          (λ m.
            go_on (length (pre ++ needle) + 1 + length m + 2) (with_value (pre ++ needle) m rest))
          same
      ∙ sym (round-masks lower pre needle w rest inner' first') in
    ap (λ n. mask_from lower (n + 1) needle 0 (with_value (pre ++ needle) v rest))
      (length-with_value (pre ++ needle) v w rest size)
    ∙ mask_from-same lower (length (with_value (pre ++ needle) w rest)) needle
        (with_value (pre ++ needle) v rest) (with_value (pre ++ needle) w rest) rounds

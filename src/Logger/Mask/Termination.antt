-- ===== src/Logger/Mask/Termination.antt =====
-- The masking of an ASCII text ends, and does not panic.
use mathlib.Core.Path.{subst⁻¹}
use proxy_sentinel.Base.Text.{Text, bytes, index_byte}
use proxy_sentinel.Base.{
  ℕ, zero, suc, ◌+◌, ◌-◌, ◌<◌, ◌≤◌, ◌≡◌, refl, inl, inr, false, List, [], ◌∷◌, ◌++◌, arith, ltb,
  ◌==◌, nat_eq, list_eq, length, get_elem?, take, drop, length-append, length-take, length-drop,
  Bool-cases, Option-cases,
}
use proxy_sentinel.Logger.Mask.Ascii.{
  IsAscii, take-IsAscii, drop-IsAscii, mask_value-IsAscii, replaced-IsAscii,
}
use proxy_sentinel.Logger.Mask.{
  index_of, blanks, closing_quote, Move, stop, crash, go_on, replace_value, mask_value, at_value,
  at_key, round, finished, mask_from, needle_of, mask_json_string_field, mask_fields, mask_json,
}
use proxy_sentinel.Logger.Mask.Lengths.{
  index_of-length, index_byte-length, closing_quote-length, get_elem?-length,
}

-- strings.ToLower keeps the length of an ASCII text.
abbrev pub KeepsLength : (Text → Text) → Type 0
KeepsLength lower = (s : Text) → IsAscii s → length (lower s) ≡ length s

-- A round returns, or goes on nearer to the end of the text, and the text stays ASCII.
abbrev pub Advances : ℕ → Move → Type 0
Advances left (stop b) = IsAscii b
Advances left crash = ⊥
Advances left (go_on idx body) = (idx ≤ length body) × (length body - idx < left) × IsAscii body

replace_value-Advances :
    (body : Text) (i : ℕ) (masked : Text) (next left : ℕ)
    → IsAscii body
    → IsAscii masked
    → i < length body
    → next ≤ length body
    → length body - next < left
    → Advances left (replace_value body i masked next)
unfolding replace_value
replace_value-Advances body i masked next left ascii mask low high near =
    let t = length-take i body in
    let d = length-drop next body in
    let b = length-append (take i body) (b'"' ∷ (masked ++ (b'"' ∷ drop next body))) in
    let m = length-append masked (b'"' ∷ drop next body) in
    (
      omega (arith, t, d, b, m),
      omega (arith, t, d, b, m),
      replaced-IsAscii body i masked next ascii mask,
    )

-- Behind the name of a field, at a position that is not behind the end, a round advances.
at_value-Advances :
    (body : Text) (key_end i left : ℕ)
    → IsAscii body
    → key_end ≤ length body
    → key_end ≤ i
    → length body - key_end < left
    → Advances left (at_value body key_end i)
unfolding at_value
at_value-Advances body key_end i left ascii inside behind near =
    elim (Option-cases (get_elem? body i)) [
      | inl out ↦ subst⁻¹ (Advances left) {y = stop body} (ground (arith, out)) ascii
      | inr (c, at_i) ↦
          let low = get_elem?-length body i c at_i in
          elim (Bool-cases (c == b'"')) [
            | inl quote ↦ elim (Option-cases (closing_quote (drop (i + 1) body))) [
              | inl open_ ↦
                  subst⁻¹ (Advances left) {y = stop body} (ground (arith, at_i, quote, open_)) ascii
              | inr (n, closed) ↦
                  let fits = closing_quote-length (drop (i + 1) body) n closed in
                  let d = length-drop (i + 1) body in
                  subst⁻¹ (Advances left) (ground (arith, at_i, quote, closed)) (
                    replace_value-Advances body i (mask_value (take n (drop (i + 1) body)))
                      (i + 1 + n + 1) left ascii
                      (mask_value-IsAscii (take n (drop (i + 1) body))
                        (take-IsAscii n (drop (i + 1) body) (drop-IsAscii (i + 1) body ascii)))
                      low (omega (arith, fits, d)) (omega (arith, fits, d)))
            ]
            | inr other ↦ elim (Bool-cases (c == b'[')) [
              | inl bracket ↦ elim (Option-cases (index_byte b']' (drop i body))) [
                | inl open_ ↦
                    subst⁻¹ (Advances left) {y = stop body}
                      (ground (arith, at_i, other, bracket, open_)) ascii
                | inr (n, closed) ↦
                    let fits = index_byte-length b']' (drop i body) n closed in
                    let d = length-drop i body in
                    subst⁻¹ (Advances left) (ground (arith, at_i, other, bracket, closed)) (
                      replace_value-Advances body i (bytes "***") (i + n + 1) left ascii
                        (ground arith) low (omega (arith, fits, d)) (omega (arith, fits, d)))
              ]
              | inr bare ↦
                  subst⁻¹ (Advances left) {y = go_on key_end body}
                    (ground (arith, at_i, other, bare)) (inside, near, ascii)
            ]
          ]
    ]

at_key-Advances :
    (body : Text) (key_end left : ℕ)
    → IsAscii body
    → key_end ≤ length body
    → length body - key_end < left
    → Advances left (at_key body key_end)
unfolding at_key
at_key-Advances body key_end left ascii inside near =
    let test : ltb (length body) key_end ≡ false = ground arith in
    elim (Option-cases (index_byte b':' (drop key_end body))) [
      | inl missing ↦ rw (test, missing) ascii
      | inr (rel, found) ↦
          let start = key_end + rel + 1 in
          rw (test, found)
            (at_value-Advances body key_end (start + blanks (drop start body)) left ascii inside
              (omega arith) near)
    ]

round-Advances :
    (lower : Text → Text) (needle : Text) (idx : ℕ) (body : Text)
    → KeepsLength lower
    → IsAscii body
    → 0 < length needle
    → idx ≤ length body
    → Advances (length body - idx) (round lower needle idx body)
unfolding round
round-Advances lower needle idx body keeps ascii some_ inside =
    let test : ltb (length (lower body)) idx ≡ false = ground (arith, keeps body ascii) in
    elim (Option-cases (index_of needle (drop idx (lower body)))) [
      | inl missing ↦ rw (test, missing) ascii
      | inr (rel, found) ↦
          let fits = index_of-length needle (drop idx (lower body)) rel found in
          let d = length-drop idx (lower body) in
          rw (test, found)
            (at_key-Advances body (idx + rel + length needle) (length body - idx) ascii
              (omega (arith, fits, d, keeps body ascii)) (omega (arith, fits, d, keeps body ascii)))
    ]

mask_from-finishes :
    (lower : Text → Text) (fuel : ℕ) (needle : Text) (idx : ℕ) (body : Text)
    → KeepsLength lower
    → IsAscii body
    → 0 < length needle
    → idx ≤ length body
    → length body - idx < fuel
    → (s : Text) × (mask_from lower fuel needle idx body ≡ finished s) × IsAscii s
unfolding mask_from
mask_from-finishes lower zero needle idx body keeps ascii some_ inside enough = absurd (omega arith)
mask_from-finishes lower (suc fuel) needle idx body keeps ascii some_ inside enough =
    by_move (round lower needle idx body) refl
      (round-Advances lower needle idx body keeps ascii some_ inside)
      (λ idx' body' h in_ near.
        mask_from-finishes lower fuel needle idx' body' keeps h some_ in_ near)
  where
    by_move :
        (m : Move)
        → round lower needle idx body ≡ m
        → Advances (length body - idx) m
        → ((idx' : ℕ) (body' : Text)
            → IsAscii body'
            → idx' ≤ length body'
            → length body' - idx' < fuel
            → (s : Text) × (mask_from lower fuel needle idx' body' ≡ finished s) × IsAscii s)
        → (s : Text) × (mask_from lower (suc fuel) needle idx body ≡ finished s) × IsAscii s
    by_move (stop b) e a more = (b, ground (arith, e), a)
    by_move crash e a more = absurd a
    by_move (go_on idx' body') e (in_, near, h) more =
        let (s, done, kept) = more idx' body' h in_ (omega (arith, near, enough)) in
        (s, ground (arith, e, done), kept)

mask_json_string_field-finishes :
    (lower : Text → Text) (body key : Text)
    → KeepsLength lower
    → IsAscii body
    → (s : Text) × (mask_json_string_field lower body key ≡ finished s) × IsAscii s
unfolding mask_json_string_field needle_of
mask_json_string_field-finishes lower body key keeps ascii =
    mask_from-finishes lower (length body + 1) (bytes "\"" ++ key ++ bytes "\"") 0 body keeps ascii
      (omega arith) (omega arith) (omega arith)

mask_fields-finishes :
    (lower : Text → Text) (keys : List Text) (s : Text)
    → KeepsLength lower
    → IsAscii s
    → (s' : Text) × (mask_fields lower keys s ≡ finished s') × IsAscii s'
unfolding mask_fields
mask_fields-finishes lower [] s keeps ascii = (s, refl, ascii)
mask_fields-finishes lower (key ∷ keys) s keeps ascii =
    let (one, done, kept) = mask_json_string_field-finishes lower s key keeps ascii in
    let (all_, rest, kept') = mask_fields-finishes lower keys one keeps kept in
    (all_, ground (arith, done, rest), kept')

-- If lower case keeps the length of ASCII texts, masking an ASCII text ends without a panic, in whatever
-- order the fields are visited, and the result is ASCII: a round for each byte, and one more, is enough.
pub mask_json-finishes :
    (lower : Text → Text) (order : List Text) (s : Text)
    → KeepsLength lower
    → IsAscii s
    → (s' : Text) × (mask_json lower order s ≡ finished s') × IsAscii s'
unfolding mask_json
mask_json-finishes lower order s keeps ascii = elim (Bool-cases (s == [])) [
  | inl empty ↦ (s, rw empty, ascii)
  | inr full ↦ rw full (mask_fields-finishes lower order s keeps ascii)
]

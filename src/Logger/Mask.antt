-- ===== src/Logger/Mask.antt =====
-- The masking of secrets in JSON texts: internal/logger/models.go. Slices of a text out of its bounds panic.
-- strings.ToLower is the argument `lower`, and the order in which Go visits the map of field names the
-- argument `order`.
pub mod Ascii
mod Lengths
pub mod Termination
pub mod Values
use proxy_sentinel.Base.Text.{Text, bytes, has_prefix, index_byte}
use proxy_sentinel.Base.{
  ℕ, zero, suc, ◌+◌, ◌-◌, Bool, ◌||◌, List, [], ◌∷◌, ◌++◌, Option, none, some, ltb, leb, ◌==◌,
  nat_eq, list_eq, if◌then◌else◌, length, get_elem?, take, drop, replicate,
}
use proxy_sentinel.Storage.Logs.{LogRecord}

abbrev pub sensitive_fields : List Text
sensitive_fields =
    bytes "authorization"
    ∷ bytes "cookie"
    ∷ bytes "set-cookie"
    ∷ bytes "password"
    ∷ bytes "passwd"
    ∷ bytes "secret"
    ∷ bytes "token"
    ∷ bytes "api-key"
    ∷ bytes "apikey"
    ∷ []

unfoldable pub mask_value : Text → Text
mask_value v =
    if leb (length v) 2
    then replicate (length v) b'*'
    else take 2 v ++ replicate (length v - 2) b'*'

-- strings.Index, with the text that is looked for first.
unfoldable pub index_of : Text → Text → Option ℕ
index_of p [] = if p == [] then some 0 else none
index_of p (c ∷ s) =
    let rest = index_of p s in
    if has_prefix p (c ∷ s) then some 0 else elim rest [ none ↦ none | some i ↦ some (suc i) ]

-- How many blanks stand at the front.
unfoldable pub blanks : Text → ℕ
blanks [] = 0
blanks (c ∷ s) = let rest = blanks s in if c == b' ' || c == 9 then suc rest else 0

-- Where the closing quote stands; a backslash takes the byte behind it along.
unfoldable pub closing_quote : Text → Option ℕ
closing_quote [] = none
closing_quote (c ∷ []) = if c == b'"' then some 0 else none
closing_quote (c ∷ d ∷ s) =
    let one = closing_quote (d ∷ s) in
    let two = closing_quote s in
    if c == b'\\'
    then elim two [ none ↦ none | some i ↦ some (suc (suc i)) ]
    else if c == b'"'
    then some 0
    else elim one [ none ↦ none | some i ↦ some (suc i) ]

-- What a round of the loop does: it returns, it panics, or it goes on at a position of a text.
pub data Move : Type 0 where
  stop : Text → Move
  crash : Move
  go_on : ℕ → Text → Move

-- A masked text in quotes in the place of the bytes from `i` up to `next`.
unfoldable pub replace_value : Text → ℕ → Text → ℕ → Move
replace_value body i masked next =
    go_on (i + length masked + 2) (take i body ++ (b'"' ∷ (masked ++ (b'"' ∷ drop next body))))

-- At the first byte of the value.
unfoldable pub at_value : Text → ℕ → ℕ → Move
at_value body key_end i = elim (get_elem? body i) [
  | none ↦ stop body
  | some c ↦
      if c == b'"'
      then elim (closing_quote (drop (i + 1) body)) [
        | none ↦ stop body
        | some n ↦ replace_value body i (mask_value (take n (drop (i + 1) body))) (i + 1 + n + 1)
      ]
      else if c == b'['
      then elim (index_byte b']' (drop i body)) [
        | none ↦ stop body
        | some n ↦ replace_value body i (bytes "***") (i + n + 1)
      ]
      else go_on key_end body
]

-- Behind the name of the field.
unfoldable pub at_key : Text → ℕ → Move
at_key body key_end =
    if ltb (length body) key_end then crash else elim (index_byte b':' (drop key_end body)) [
      | none ↦ stop body
      | some rel ↦
          let start = key_end + rel + 1 in at_value body key_end (start + blanks (drop start body))
    ]

unfoldable pub round : (Text → Text) → Text → ℕ → Text → Move
round lower needle idx body =
    if ltb (length (lower body)) idx
    then crash
    else elim (index_of needle (drop idx (lower body))) [
      | none ↦ stop body
      | some rel ↦ at_key body (idx + rel + length needle)
    ]

pub data Outcome : Type 0 where
  finished : Text → Outcome
  panics : Outcome
  exhausted : Outcome

unfoldable pub mask_from : (Text → Text) → ℕ → Text → ℕ → Text → Outcome
mask_from lower zero needle idx body = exhausted
mask_from lower (suc fuel) needle idx body = elim (round lower needle idx body) [
  | stop b ↦ finished b
  | crash ↦ panics
  | go_on idx' body' ↦ mask_from lower fuel needle idx' body'
]

unfoldable pub needle_of : Text → Text
needle_of key = bytes "\"" ++ key ++ bytes "\""

unfoldable pub mask_json_string_field : (Text → Text) → Text → Text → Outcome
mask_json_string_field lower body key = mask_from lower (length body + 1) (needle_of key) 0 body

unfoldable pub mask_fields : (Text → Text) → List Text → Text → Outcome
mask_fields lower [] s = finished s
mask_fields lower (key ∷ keys) s = elim (mask_json_string_field lower s key) [
  | finished s' ↦ mask_fields lower keys s'
  | panics ↦ panics
  | exhausted ↦ exhausted
]

unfoldable pub mask_json : (Text → Text) → List Text → Text → Outcome
mask_json lower order s = if s == [] then finished s else mask_fields lower order s

-- Go on with the masked text.
infixl 5 ◌then_mask◌
abbrev ◌then_mask◌ : Outcome → (Text → Option LogRecord) → Option LogRecord
finished s then_mask next = next s
panics then_mask next = none
exhausted then_mask next = none

-- The copy of a record with its four texts masked; `none` is a panic. Go visits the map anew for each text.
unfoldable pub mask_record : (Text → Text) → (ℕ → List Text) → LogRecord → Option LogRecord
mask_record lower order r = mask_json lower (order 0) r.request_headers then_mask λ request_headers.
    mask_json lower (order 1) r.response_headers then_mask λ response_headers.
    mask_json lower (order 2) r.request_body then_mask λ request_body.
    mask_json lower (order 3) r.response_body then_mask λ response_body. some (record r {
      request_headers = request_headers;
      response_headers = response_headers;
      request_body = request_body;
      response_body = response_body;
    })

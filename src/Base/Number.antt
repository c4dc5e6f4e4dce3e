-- ===== src/Base/Number.antt =====
-- strconv.ParseInt in base 10 for 64 bits, which is also strconv.Atoi where an int has 64 bits.
use proxy_sentinel.Base.Int.{ℤ, pos, negsuc}
use proxy_sentinel.Base.Text.{Text}
use proxy_sentinel.Base.Tests.{leb, ltb, ◌==◌, nat_eq, list_eq, if◌then◌else◌}
use Prim.Native.Nat.{ℕ, ◌+◌, ◌-◌, ◌*◌, ◌^◌}
use mathlib.Core.Bool.{Bool, ◌&&◌}
use mathlib.Core.Option.{Option, none, some}
use mathlib.Core.List.{[], ◌∷◌}

abbrev is_digit : ℕ → Bool
is_digit c = leb b'0' c && leb c b'9'

-- The value of the digits behind those read so far; `none` when there is another byte.
parse_digits : ℕ → Text → Option ℕ
parse_digits acc [] = some acc
parse_digits acc (c ∷ s) =
    let rest = parse_digits (acc * 10 + (c - b'0')) s in if is_digit c then rest else none

parse_magnitude : Text → Option ℕ
unfolding parse_digits
parse_magnitude s = if s == [] then none else parse_digits 0 s

negative : ℕ → Option ℤ
negative n = if n == 0 then some (pos 0) else if leb n (2 ^ 63) then some (negsuc (n - 1)) else none

positive : ℕ → Option ℤ
positive n = if ltb n (2 ^ 63) then some (pos n) else none

-- `none` is an error of syntax or of range.
unfoldable pub parse_int : Text → Option ℤ
unfolding parse_magnitude negative positive
parse_int [] = none
parse_int (c ∷ s) =
    if c == b'-'
    then elim (parse_magnitude s) [ none ↦ none | some n ↦ negative n ]
    else elim (parse_magnitude (if c == b'+' then s else c ∷ s)) [
      | none ↦ none
      | some n ↦ positive n
    ]

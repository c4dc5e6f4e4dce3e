-- ===== src/Net/Header.antt =====
-- http.Header: canonical keys with their values, `Get` and `Set`.
use proxy_sentinel.Base.Map
use proxy_sentinel.Base.Map.{lookup-insert}
use proxy_sentinel.Base.Text.{Text, bytes}
use proxy_sentinel.Base.{
  ℕ, ◌+◌, ◌-◌, ◌≡◌, Bool, true, not, ◌&&◌, ◌||◌, List, [], ◌∷◌, Option, none, some, arith, leb,
  ◌==◌, nat_eq, list_eq, if◌then◌else◌, any,
}

abbrev pub Header : Type 0
Header = List (Text × List Text)

unfoldable pub is_lower : ℕ → Bool
is_lower c = leb b'a' c && leb c b'z'

unfoldable pub is_upper : ℕ → Bool
is_upper c = leb b'A' c && leb c b'Z'

-- The bytes of a header field's name.
token_byte : ℕ → Bool
unfolding is_lower is_upper
token_byte c =
    is_lower c
    || is_upper c
    || (leb b'0' c && leb c b'9')
    || any (λ d. d == c) (bytes "!#$%&'*+-.^_`|~")

all_token : Text → Bool
unfolding token_byte
all_token [] = true
all_token (c ∷ s) = token_byte c && all_token s

canonical_from : Bool → Text → Text
unfolding is_lower is_upper
canonical_from first [] = []
canonical_from first (c ∷ s) =
    let d = if first && is_lower c then c - 32 else if not first && is_upper c then c + 32 else c in
    d ∷ canonical_from (d == b'-') s

-- http.CanonicalHeaderKey
unfoldable pub canonical : Text → Text
unfolding all_token canonical_from
canonical k = if all_token k then canonical_from true k else k

first_value : Option (List Text) → Text
first_value none = []
first_value (some []) = []
first_value (some (v ∷ vs)) = v

unfoldable pub get : Header → Text → Text
unfolding first_value
get h k = first_value (Map.lookup (canonical k) h)

unfoldable pub set : Header → Text → Text → Header
set h k v = Map.insert (canonical k) (v ∷ []) h

pub get-set :
    (h : Header) (k j v : Text)
    → get (set h k v) j ≡ (if canonical k == canonical j then v else get h j)
unfolding get set
get-set h k j v = ground (arith, lookup-insert (canonical k) (canonical j) (v ∷ []) h)

-- ===== src/Net/Addr.antt =====
-- net.SplitHostPort, as far as its host: the error is `none`.
use proxy_sentinel.Base.Text.{Text, index_byte}
use proxy_sentinel.Base.{
  ℕ, suc, ◌+◌, Bool, false, not, ◌&&◌, ◌||◌, [], ◌∷◌, Option, none, some, ◌==◌, nat_eq, list_eq,
  if◌then◌else◌, take, drop,
}

has_byte : ℕ → Text → Bool
has_byte b [] = false
has_byte b (c ∷ s) = c == b || has_byte b s

-- strings.LastIndexByte
unfoldable pub last_index_byte : ℕ → Text → Option ℕ
last_index_byte b [] = none
last_index_byte b (c ∷ s) =
    let rest = last_index_byte b s in
    elim rest [ none ↦ if c == b then some 0 else none | some i ↦ some (suc i) ]

-- `hostport[0] == '['`
opens : Text → Bool
opens [] = false
opens (c ∷ s) = c == b'['

-- The host in brackets: its "]" stands just in front of the last colon, and no bracket follows.
bracketed : Text → ℕ → Option Text
unfolding has_byte
bracketed s i = elim (index_byte b']' s) [
  | none ↦ none
  | some end ↦
      if end + 1 == i && not (has_byte b'[' (drop 1 s)) && not (has_byte b']' (drop (end + 1) s))
      then some (drop 1 (take end s))
      else none
]

-- The host without brackets, which has no colon.
plain : Text → ℕ → Option Text
unfolding has_byte
plain s i =
    if has_byte b':' (take i s) || has_byte b'[' s || has_byte b']' s then none else some (take i s)

unfoldable pub split_host : Text → Option Text
unfolding opens bracketed plain last_index_byte index_byte
split_host s = elim (last_index_byte b':' s) [
  | none ↦ none
  | some i ↦ if opens s then bracketed s i else plain s i
]

-- ===== src/Auth/ProxyAuth.antt =====
-- ProxyAuthMiddleware of internal/auth/proxy_auth.go: the bearer token of a request to the proxy.
use proxy_sentinel.Base.Int.{ℤ}
use proxy_sentinel.Base.Text.{Text, bytes, has_prefix, trim_prefix, trim_space}
use proxy_sentinel.Base.{
  ℕ, ◌≡◌, ◌≢◌, Bool, true, not, [], none, some, arith, ◌==◌, nat_eq, list_eq, if◌then◌else◌,
}
use proxy_sentinel.Base.Affix.{text_eq_iff}
use proxy_sentinel.Storage.Tokens.{Tokens, valid_token}

-- What the context carries on: the token, its id and its own limit.
pub record Bearer : Type 0 where
  pub token : Text
  pub token_id : ℕ
  pub rate_limit_rpm : ℤ

pub data Answer : Type 0 where
  authorized : Bearer → Answer
  rejected : ℕ → Answer

-- The database: its error of the question, and its error of the write that follows.
pub record Faults : Type 0 where
  pub reads : Bool
  pub marks : Bool

unfoldable pub check_token : (Text → Text) → Faults → ℕ → Text → Tokens → Answer × Tokens
check_token sha f now token t =
    if f.reads
    then (rejected 500, t)
    else let (found, t') = valid_token sha f.marks now token t in
      elim found [
        | none ↦ (rejected 401, t')
        | some (id, rpm) ↦
            (authorized (record { token = token; token_id = id; rate_limit_rpm = rpm }), t')
      ]

-- On the value of the header `Authorization`, empty for none.
unfoldable pub authenticate : (Text → Text) → Faults → ℕ → Text → Tokens → Answer × Tokens
authenticate sha f now header t =
    if header == []
    then (rejected 401, t)
    else if not (has_prefix (bytes "Bearer ") header)
    then (rejected 401, t)
    else let token = trim_space (trim_prefix (bytes "Bearer ") header) in
      if token == [] then (rejected 401, t) else check_token sha f now token t

-- Only a header of the scheme Bearer gets through, with a token that the table accepts at that time, under
-- the id and the limit of the token's row.
pub authenticate_authorized :
    (sha : Text → Text) (f : Faults) (now : ℕ) (header : Text) (t : Tokens) (b : Bearer)
    → (authenticate sha f now header t).0 ≡ authorized b
    → (has_prefix (bytes "Bearer ") header ≡ true)
      × (b.token ≡ trim_space (trim_prefix (bytes "Bearer ") header))
      × (b.token ≢ [])
      × ((valid_token sha f.marks now b.token t).0 ≡ some (b.token_id, b.rate_limit_rpm))
unfolding authenticate check_token
authenticate_authorized sha f now header t b e =
    let token = trim_space (trim_prefix (bytes "Bearer ") header) in
    ground (arith, e, text_eq_iff token [])

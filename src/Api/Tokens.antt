-- ===== src/Api/Tokens.antt =====
-- The handlers of internal/api/tokens.go, over the table of tokens and the rate limiter. The request's JSON,
-- the random bytes, the calendar and the errors of the database are arguments; the texts of the answers are
-- left out, except for the token that is returned once.
pub mod Issuing
use proxy_sentinel.Base.Int.{ℤ, pos, pos_part, ltb_ℤ}
use proxy_sentinel.Base.Text.{Text, bytes, trim_space}
use proxy_sentinel.Base.{
  ℕ, ◌+◌, ◌*◌, ◌/◌, Bool, true, false, not, ◌&&◌, ◌||◌, List, [], ◌∷◌, ◌++◌, Option, none, some,
  ltb, ◌==◌, nat_eq, list_eq, if◌then◌else◌, length,
}
use proxy_sentinel.Storage.Tokens
use proxy_sentinel.Storage.Tokens.{TokenInfo}
use proxy_sentinel.Ratelimit.{Floats, Limiter, allow, remove}
use proxy_sentinel.Proxy.RequestId.{hex_encode}
use proxy_sentinel.Api.Login.{Audit}
use proxy_sentinel.Api.Users.{Faults, path_id}

pub record Call : Type 0 where
  pub now : ℕ
  pub current : Text
  pub ip : Text
  pub sha : Text → Text
  pub random : Option Text  -- the 16 bytes of rand.Read
  pub in_days : ℤ → ℕ  -- the time so many days from now
  pub faults : Faults

pub record Site (F : Type 0) : Type 0 where
  pub tokens : Tokens.Tokens
  pub limiter : Limiter F
  pub audits : List Audit

pub record CreateTokenRequest : Type 0 where
  pub name : Text
  pub token : Text
  pub rate_limit_rpm : ℤ
  pub expires_in_days : Option ℤ

pub record UpdateTokenRequest : Type 0 where
  pub name : Text
  pub rate_limit_rpm : Option ℤ

unfoldable pub generate_token : Option Text → Option Text
generate_token none = none
generate_token (some b) = some (bytes "sk-" ++ hex_encode b)

below_one : Option ℤ → Bool
below_one none = false
below_one (some n) = ltb_ℤ n (pos 1)

below_zero : Option ℤ → Bool
below_zero none = false
below_zero (some n) = ltb_ℤ n (pos 0)

-- The status of a request that is refused for its fields; the name is trimmed.
unfoldable pub refuses_fields : Text → ℤ → Option ℤ → Bool
unfolding below_one
refuses_fields name rpm days =
    name == [] || ltb 64 (length name) || ltb_ℤ rpm (pos 0) || below_one days

-- The token of the request, or a new one; the error is a status.
unfoldable pub choose_token : Option Text → Text → Option Text × ℕ
choose_token random token =
    if token == []
    then (elim (generate_token random) [ none ↦ (none, 500) | some t ↦ (some t, 201) ])
    else if ltb (length token) 16 || ltb 128 (length token)
    then (none, 400)
    else (some token, 201)

unfoldable pub expiry : (ℤ → ℕ) → Option ℤ → Option ℕ
expiry in_days none = none
expiry in_days (some n) = if ltb_ℤ (pos 0) n then some (in_days n) else none

-- Without a name and a limit there is no statement that could fail.
unfoldable pub writes_fail : Call → Text → Option ℤ → Bool
writes_fail c name none = c.faults.writes && not (name == [])
writes_fail c name (some rpm) = c.faults.writes

module _ {F : Type 0} where
  unfoldable pub audit : Call → Text → Site F → Site F
  audit c action s = record s {
    audits = s.audits ++ record { username = c.current; action = action; ip = c.ip } ∷ [];
  }

  -- `none` is the answer 500.
  unfoldable pub list_tokens : Call → ℤ → Site F → Option (List TokenInfo × ℤ)
  list_tokens c default_rpm s =
      if c.faults.lists then none else some (Tokens.list_tokens s.tokens, default_rpm)

  -- From the question whether the token is known on.
  unfoldable pub insert_token :
      Call → Text → Text → ℤ → Option ℕ → Site F → (ℕ × Option Text) × Site F
  insert_token c token name rpm expires s =
      if c.faults.counts
      then ((500, none), s)
      else if Tokens.token_exists c.sha token s.tokens
      then ((400, none), s)
      else if c.faults.writes
      then ((500, none), s)
      else elim (Tokens.add_token c.sha c.now token name rpm expires s.tokens) [
        | none ↦ ((500, none), s)
        | some tokens ↦
            ((201, some token), audit c (bytes "token_created") (record s { tokens = tokens }))
      ]

  -- The status, and the token in plain text.
  unfoldable pub create_token :
      Call → Option CreateTokenRequest → Site F → (ℕ × Option Text) × Site F
  create_token c none s = ((400, none), s)
  create_token c (some q) s =
      let name = trim_space q.name in
      if refuses_fields name q.rate_limit_rpm q.expires_in_days
      then ((400, none), s)
      else let (chosen, status) = choose_token c.random (trim_space q.token) in
        elim chosen [
          | none ↦ ((status, none), s)
          | some token ↦
              insert_token c token name q.rate_limit_rpm (expiry c.in_days q.expires_in_days) s
        ]

  -- A changed limit starts with a fresh bucket.
  unfoldable pub drop_bucket : ℕ → Option ℤ → Limiter F → Limiter F
  drop_bucket id none l = l
  drop_bucket id (some rpm) l = remove id l

  unfoldable pub store_meta : Call → ℕ → Text → Option ℤ → Site F → ℕ × Site F
  unfolding writes_fail
  store_meta c id name rpm s =
      if c.faults.reads then (500, s) else elim (Tokens.get_token id s.tokens) [
        | none ↦ (404, s)
        | some t ↦ if writes_fail c name rpm then (500, s) else (
          200,
          audit c (bytes "token_updated") (record s {
            tokens = Tokens.update_token_meta id name rpm s.tokens;
            limiter = drop_bucket id rpm s.limiter;
          }),
        )
      ]

  unfoldable pub update_token : Call → Text → Option UpdateTokenRequest → Site F → ℕ × Site F
  unfolding below_zero
  update_token c path body s = elim (path_id path) [
    | none ↦ (400, s)
    | some id ↦ elim body [
      | none ↦ (400, s)
      | some q ↦
          let name = trim_space q.name in
          if not (q.name == []) && name == []
          then (400, s)
          else if ltb 64 (length name)
          then (400, s)
          else if below_zero q.rate_limit_rpm
          then (400, s)
          else store_meta c id name q.rate_limit_rpm s
    ]
  ]

  unfoldable pub delete_token : Call → Text → Site F → ℕ × Site F
  delete_token c path s = elim (path_id path) [
    | none ↦ (400, s)
    | some id ↦
        if c.faults.writes
        then (500, s)
        else let (gone, tokens) = Tokens.delete_token id s.tokens in
          if not gone then (404, s) else (
            200,
            audit c (bytes "token_deleted")
                (record s { tokens = tokens; limiter = remove id s.limiter }),
          )
  ]

-- A request that passes, or the answer 429 with the seconds of Retry-After and the limit.
pub data Throttle : Type 0 where
  passes : Throttle
  limited : ℕ → ℤ → Throttle

-- The limit of the token, or else the default one.
unfoldable pub effective_limit : ℤ → ℤ → ℤ
effective_limit default_rpm rpm = if ltb_ℤ (pos 0) rpm then rpm else default_rpm

module _ {F : Type 0} (fl : Floats F) where
  unfoldable pub rate_limit : ℕ → ℤ → ℕ → ℤ → Limiter F → Throttle × Limiter F
  rate_limit now default_rpm id rpm l =
      let limit = effective_limit default_rpm rpm in
      if not (ltb_ℤ (pos 0) limit)
      then (passes, l)
      else let (decision, l') = allow fl now id limit l in
        (if decision.0 then passes else limited (pos_part decision.1 / 1_000_000_000 + 1) limit, l')

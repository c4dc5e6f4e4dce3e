-- ===== src/Api/Gate.antt =====
-- The way of a request into the proxy, as internal/api/router.go chains it: the IP lists of
-- internal/api/ipacl.go, the bearer token, the rate limit, and then the proxy's handler.
pub mod Admission
use proxy_sentinel.Base.Int.{ℤ}
use proxy_sentinel.Base.Text.{Text, trim_space}
use proxy_sentinel.Base.{ℕ, Bool, true, false, not, [], ◌∷◌, Option, none, some, if◌then◌else◌}
use proxy_sentinel.Net.Addr.{split_host}
use proxy_sentinel.Ipacl.{Parser, Acl, allowed}
use proxy_sentinel.Storage.Tokens.{Tokens}
use proxy_sentinel.Auth.ProxyAuth.{Bearer, Faults, authorized, rejected, authenticate}
use proxy_sentinel.Ratelimit.{Floats, Limiter}
use proxy_sentinel.Api.Tokens.{passes, limited, rate_limit}

unfoldable pub direct_ip : Text → Text
direct_ip remote = elim (split_host remote) [
  | none ↦ trim_space remote
  | some host ↦ trim_space host
]

-- The state that decides: the lists that are in force, the tokens and the buckets.
pub record Gate (F : Type 0) : Type 0 where
  pub acl : Option Acl
  pub tokens : Tokens
  pub limiter : Limiter F

-- What a request brings, and what the libraries and the database make of it.
pub record Knock : Type 0 where
  pub now : ℕ
  pub remote_addr : Text
  pub authorization : Text
  pub parser : Parser
  pub sha : Text → Text
  pub faults : Faults
  pub default_rpm : ℤ

-- The request reaches the handler, or it is answered with a status.
pub data Entry : Type 0 where
  admitted : Bearer → Entry
  turned_away : ℕ → Entry

-- The decision of the IP lists on the address of the connection.
unfoldable pub ip_allowed : Knock → Option Acl → Bool
ip_allowed k none = true
ip_allowed k (some l) = allowed k.parser l (direct_ip k.remote_addr)

module _ {F : Type 0} (fl : Floats F) where
  unfoldable pub throttle : Knock → Bearer → Gate F → Entry × Gate F
  throttle k b g =
      let (answer, l) = rate_limit fl k.now k.default_rpm b.token_id b.rate_limit_rpm g.limiter in
      (
        elim answer [ passes ↦ admitted b | limited seconds limit ↦ turned_away 429 ],
        record g { limiter = l },
      )

  unfoldable pub check_bearer : Knock → Gate F → Entry × Gate F
  check_bearer k g =
      let (answer, tokens) = authenticate k.sha k.faults k.now k.authorization g.tokens in
      elim answer [
        | rejected status ↦ (turned_away status, record g { tokens = tokens })
        | authorized b ↦ throttle k b (record g { tokens = tokens })
      ]

  unfoldable pub enter : Knock → Gate F → Entry × Gate F
  enter k g = if not (ip_allowed k g.acl) then (turned_away 403, g) else check_bearer k g

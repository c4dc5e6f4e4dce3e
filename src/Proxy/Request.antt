-- ===== src/Proxy/Request.antt =====
-- A request as internal/proxy/handler.go sees it, and what it reads from the headers.
use proxy_sentinel.Base.Int.{ℤ}
use proxy_sentinel.Base.Text.{Text, bytes, trim_space, index_byte}
use proxy_sentinel.Base.{
  ℕ, Bool, not, ◌&&◌, ◌++◌, List, [], Option, none, some, ltb, ◌==◌, nat_eq, list_eq, if◌then◌else◌,
  take,
}
use proxy_sentinel.Net.Header
use proxy_sentinel.Net.Header.{Header}
use proxy_sentinel.Net.Addr.{split_host}

-- A request body: its bytes, and where reading fails, if it does.
pub record Body : Type 0 where
  pub content : Text
  pub fails_at : Option ℕ

pub record Request : Type 0 where
  pub method : Text
  pub path : Text
  pub query : Text
  pub host : Text
  pub remote_addr : Text
  pub tls : Bool
  pub header : Header
  pub cookies : List (Text × Text)
  pub content_length : ℤ  -- -1 for an unknown length
  pub body : Option Body

-- io.ReadAll(io.LimitReader(body, n))
unfoldable pub read_limited : ℕ → Body → Option Text
read_limited n b = elim b.fails_at [
  | none ↦ some (take n b.content)
  | some k ↦ if ltb k n then none else some (take n b.content)
]

unfoldable pub remote_ip : Request → Text
remote_ip r = elim (split_host r.remote_addr) [ none ↦ r.remote_addr | some host ↦ host ]

first_hop : Text → Text
first_hop v = elim (index_byte b',' v) [ none ↦ trim_space v | some i ↦ trim_space (take i v) ]

unfoldable pub client_ip : Bool → Request → Text
unfolding first_hop
client_ip trust r =
    let forwarded = Header.get r.header (bytes "X-Forwarded-For") in
    let real = Header.get r.header (bytes "X-Real-IP") in
    if trust && not (forwarded == [])
    then first_hop forwarded
    else if trust && not (real == [])
    then real
    else remote_ip r

unfoldable pub append_xff : Header → Text → Bool → Header
append_xff h client trust =
    let prior = Header.get h (bytes "X-Forwarded-For") in
    if trust && not (prior == [])
    then Header.set h (bytes "X-Forwarded-For") (prior ++ bytes ", " ++ client)
    else Header.set h (bytes "X-Forwarded-For") client

unfoldable pub scheme : Request → Bool → Text
scheme r trust =
    let proto = Header.get r.header (bytes "X-Forwarded-Proto") in
    if r.tls then bytes "https" else if trust && not (proto == []) then proto else bytes "http"

-- ===== src/Proxy/Handler.antt =====
-- The proxy handler of internal/proxy/handler.go. One request is one function from the handler's state
-- and the request to the new state, the reply, the request that `Director` prepares and the log record. What lies
-- outside the program is in `World`: the clock, random numbers, url.Parse, and the exchange with the
-- backend that httputil.ReverseProxy makes with the request that `Director` has prepared. What
-- ReverseProxy does to the headers of that request before it sends it is an argument of Handler/Forward.
pub mod Limits
pub mod Routing
pub mod Forward
pub mod Relaying
use proxy_sentinel.Base.Int.{ℤ, pos, negsuc}
use proxy_sentinel.Base.Text.{Text, bytes, trim_prefix, trim_space, index_byte}
use proxy_sentinel.Base.{
  ℕ, zero, suc, ◌+◌, Bool, true, false, not, ◌&&◌, ◌||◌, ◌++◌, List, [], ◌∷◌, Option, none, some,
  ltb, leb, ◌==◌, nat_eq, list_eq, if◌then◌else◌, length, take,
}
use proxy_sentinel.Net.Header
use proxy_sentinel.Net.Header.{Header}
use proxy_sentinel.Proxy.Request.{Request, Body, read_limited, client_ip, append_xff, scheme}
use proxy_sentinel.Storage.{RouteRule, RewriteRule}
use proxy_sentinel.Proxy.Balancer.{DynamicBalancer, Pick, picked, panic, next, mark_down}
use proxy_sentinel.Proxy.Rules.{RuleInput, match_request}
use proxy_sentinel.Proxy.Rewrite.{apply_rewrite}
use proxy_sentinel.Proxy.Paths.{join_url_path}
use proxy_sentinel.Proxy.RequestId.{resolve_request_id}
use proxy_sentinel.Proxy.Recorder.{
  Client, Recorder, Call, sets_status, sets_headers, writes_header, writes, new_recorder, calls,
  truncate_string, fresh_client,
}
use proxy_sentinel.Proxy.Decode.{Codecs, decode_response_body, itoa}

pub record Handler : Type 0 where
  pub balancer : DynamicBalancer
  pub has_logger : Bool
  pub max_body : ℕ  -- maxBodyBytes
  pub max_upload : ℕ  -- maxUploadBytes, 0 for no limit
  pub log_max : ℕ  -- logBodyMax
  pub trust_xff : Bool
  pub rules : Option (List RouteRule)  -- the atomic pointers
  pub rewrites : Option (List RewriteRule)

-- SetRules and SetRewrites; `none` is a nil slice.
unfoldable pub set_rules : Option (List RouteRule) → Handler → Handler
set_rules none h = record h { rules = some [] }
set_rules (some rules) h = record h { rules = some rules }

unfoldable pub set_rewrites : Option (List RewriteRule) → Handler → Handler
set_rewrites none h = record h { rewrites = some [] }
set_rewrites (some rules) h = record h { rewrites = some rules }

unfoldable pub load_rules : Handler → List RouteRule
load_rules h = elim h.rules [ none ↦ [] | some rules ↦ rules ]

unfoldable pub load_rewrites : Handler → List RewriteRule
load_rewrites h = elim h.rewrites [ none ↦ [] | some rules ↦ rules ]

unfoldable pub new_handler : DynamicBalancer → Bool → ℕ → ℕ → ℕ → Bool → Handler
unfolding set_rules set_rewrites
new_handler b has_logger max_body max_upload log_max trust_xff = set_rewrites none (
    set_rules none (record {
      balancer = b;
      has_logger = has_logger;
      max_body = max_body;
      max_upload = max_upload;
      log_max = log_max;
      trust_xff = trust_xff;
      rules = none;
      rewrites = none;
    }))

-- The body that is sent on: as it came, read into memory, or streamed, with the limit of
-- http.MaxBytesReader if there is one.
pub data OutBody : Type 0 where
  as_received : OutBody
  buffered : Text → OutBody
  streamed : Option ℕ → OutBody

pub data BodyPlan : Type 0 where
  refuse : ℕ → Text → BodyPlan
  ready : Text → OutBody → BodyPlan

unfoldable pub upload_limit : ℕ → Option ℕ
upload_limit zero = none
upload_limit (suc n) = some (suc n)

unfoldable pub buffer_body : ℕ → Body → BodyPlan
buffer_body max_body b = elim (read_limited (max_body + 1) b) [
  | none ↦ refuse 400 (bytes "read request body failed")
  | some t ↦
      if ltb max_body (length t)
      then refuse 413 (bytes "request body too large")
      else ready t (buffered t)
]

-- The branch for a body with a Content-Length that is not 0.
unfoldable pub plan_sized : ℕ → ℕ → ℤ → Body → BodyPlan
plan_sized max_body max_upload (negsuc n) b =
    ready (bytes "[streamed chunked]") (streamed (upload_limit max_upload))
plan_sized max_body max_upload (pos cl) b =
    if ltb max_body cl
    then (if ltb 0 max_upload && ltb max_upload cl
        then refuse 413 (bytes "upload body too large")
        else ready (bytes "[streamed " ++ itoa cl ++ bytes " bytes]")
            (streamed (upload_limit max_upload)))
    else buffer_body max_body b

unfoldable pub is_zero_length : ℤ → Bool
is_zero_length (pos zero) = true
is_zero_length (pos (suc n)) = false
is_zero_length (negsuc n) = false

unfoldable pub plan_body : Handler → Request → BodyPlan
plan_body h r = elim r.body [
  | none ↦ ready [] as_received
  | some b ↦
      if is_zero_length r.content_length
      then ready [] as_received
      else plan_sized h.max_body h.max_upload r.content_length b
]

pub record Target : Type 0 where
  pub scheme : Text
  pub host : Text
  pub path : Text

pub record OutRequest : Type 0 where
  pub method : Text
  pub target : Target  -- scheme, host and path of the URL
  pub query : Text
  pub header : Header
  pub body : OutBody

-- What comes of the exchange: a response that is no protocol upgrade, with the chunks of its body, or an
-- error, which may be that the client has gone.
pub data Exchange : Type 0 where
  responded : ℕ → Header → List Text → Exchange
  failed : Bool → Exchange

pub record World : Type 0 where
  pub intn : ℕ → ℕ
  pub random : Option Text
  pub now : ℕ
  pub finish : ℕ
  pub parse_url : Text → Option Target
  pub exchange : OutRequest → Exchange
  pub interim : OutRequest → List ℕ  -- the codes of 1xx answers before the end of the exchange
  pub codecs : Codecs

pub record LogRecord : Type 0 where
  pub method : Text
  pub path : Text
  pub query : Text
  pub request_headers : Header
  pub request_body : Text
  pub status : ℕ
  pub response_headers : Header
  pub response_body : Text
  pub started : ℕ
  pub finished : ℕ
  pub client_ip : Text
  pub user_agent : Text
  pub referer : Text
  pub backend_url : Text
  pub request_id : Text

-- The reply: an error that the handler writes itself, or what went through the recorder. The header
-- X-Request-ID is set on every reply.
pub data Reply : Type 0 where
  json_error : ℕ → Text → Reply
  relayed : Recorder → Reply
  crashed : Reply

pub record Served : Type 0 where
  pub handler : Handler
  pub id : Text
  pub reply : Reply
  pub directed : Option OutRequest  -- the request of the exchange, as `Director` leaves it
  pub logged : Option LogRecord

-- The choice of the backend: a rule that hits, else the balancer.
unfoldable pub choose : World → Handler → Request → Text → Pick × DynamicBalancer
choose w h r stripped =
    elim (match_request
      (record { header_get = Header.get r.header; cookies = r.cookies; stripped_path = stripped })
      h.rules) [ some url ↦ (picked url, h.balancer) | none ↦ next w.intn h.balancer ]

-- The request that `Director` prepares.
unfoldable pub direct : Handler → Request → Target → Text → Text → Text → OutBody → OutRequest
direct h r t path client id body = record {
  method = r.method;
  target = record { scheme = t.scheme; host = t.host; path = path };
  query = r.query;
  header =
      Header.set
        (Header.set
          (Header.set (append_xff r.header client h.trust_xff) (bytes "X-Forwarded-Proto")
            (scheme r h.trust_xff))
          (bytes "X-Forwarded-Host") r.host)
        (bytes "X-Request-ID") id;
  body = body;
}

unfoldable pub write_chunks : List Text → List Call
write_chunks [] = []
write_chunks (c ∷ cs) = writes c ∷ write_chunks cs

-- The body of `writeJSONError`; no message of the handler needs escaping.
abbrev error_json : Text → Text
error_json msg = bytes "{\"error\":\"" ++ msg ++ bytes "\"}"

unfoldable pub write_headers : List ℕ → List Call
write_headers [] = []
write_headers (code ∷ codes) = writes_header code ∷ write_headers codes

-- The calls on the recorder that end an exchange.
unfoldable pub exchange_calls : Exchange → List Call
exchange_calls (responded status header body) =
    sets_status status ∷ sets_headers header ∷ writes_header status ∷ write_chunks body
exchange_calls (failed true) = sets_status 499 ∷ []
exchange_calls (failed false) =
    sets_status 502 ∷ writes_header 502 ∷ writes (error_json (bytes "backend unavailable")) ∷ []

-- A failure that is not the client's takes the backend down.
unfoldable pub after_exchange : Exchange → Text → DynamicBalancer → DynamicBalancer
after_exchange (responded status header body) url b = b
after_exchange (failed true) url b = b
after_exchange (failed false) url b = mark_down url b

unfoldable pub log_record :
    World → Handler → Request → Text → Recorder → Text → Text → Text → LogRecord
log_record w h r req_body rec client backend id = record {
  method = r.method;
  path = r.path;
  query = r.query;
  request_headers = r.header;
  request_body = truncate_string req_body h.log_max;
  status = rec.status;
  response_headers = rec.headers;
  response_body = decode_response_body w.codecs rec.body rec.headers;
  started = w.now;
  finished = w.finish;
  client_ip = client;
  user_agent = Header.get r.header (bytes "User-Agent");
  referer = Header.get r.header (bytes "Referer");
  backend_url = backend;
  request_id = id;
}

-- An answer that the handler gives before anything is sent.
abbrev reject : Handler → Text → Reply → Served
reject h id reply = record { handler = h; id = id; reply = reply; directed = none; logged = none }

-- From the parsed backend URL on.
unfoldable pub relay :
    World → Handler → Request → Text → Text → Text → Text → OutBody → Target → Served
relay w h r id stripped backend req_body body t =
    let client = client_ip h.trust_xff r in
    let path = join_url_path t.path (apply_rewrite h.rewrites stripped backend) in
    let out = direct h r t path client id body in
    let result = w.exchange out in
    let rec =
      calls (new_recorder fresh_client h.log_max)
        (write_headers (w.interim out) ++ exchange_calls result) in
    record {
      handler = record h { balancer = after_exchange result backend h.balancer };
      id = id;
      reply = relayed rec;
      directed = some out;
      logged =
          if h.has_logger then some (log_record w h r req_body rec client backend id) else none;
    }

-- The body of the request and the backend's URL.
unfoldable pub dispatch : World → Handler → Request → Text → Text → Text → Served
dispatch w h r id stripped backend = elim (plan_body h r) [
  | refuse code msg ↦ reject h id (json_error code msg)
  | ready req_body body ↦ elim (w.parse_url backend) [
    | none ↦ reject h id (json_error 502 (bytes "invalid backend url"))
    | some t ↦ relay w h r id stripped backend req_body body t
  ]
]

unfoldable pub serve : World → Handler → Request → Served
serve w h r =
    let id = resolve_request_id w.random w.now (Header.get r.header (bytes "X-Request-ID")) in
    let stripped = trim_prefix (bytes "/proxy") r.path in
    let (pick, balancer) = choose w h r stripped in
    let h' = record h { balancer = balancer } in
    elim pick [
      | panic ↦ reject h' id crashed
      | picked backend ↦
          if backend == []
          then reject h' id (json_error 502 (bytes "no available backend"))
          else dispatch w h' r id stripped backend
    ]

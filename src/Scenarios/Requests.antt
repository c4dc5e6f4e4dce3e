-- ===== src/Scenarios/Requests.antt =====
-- A request through the handler, with a backend that answers and with one that fails.
use proxy_sentinel.Base.Int.{pos}
use proxy_sentinel.Base.Map
use proxy_sentinel.Base.Text.{Text, bytes, trim_prefix, trim_suffix, has_prefix, index_byte}
use proxy_sentinel.Base.{
  ◌-◌, ◌≤◌, ◌≡◌, refl, true, false, List, [], ◌∷◌, none, some, list_beq, length, ◌∙◌, Bool, ◌++◌,
  ◌==◌, nat_eq, list_eq, if◌then◌else◌, Option, ap,
}
use proxy_sentinel.Net.Header
use proxy_sentinel.Net.Header.{Header, get-set}
use proxy_sentinel.Base.Map.{lookup-erase}
use proxy_sentinel.Net.Addr.{split_host}
use proxy_sentinel.Proxy.Paths.{join_url_path}
use proxy_sentinel.Proxy.Rewrite.{apply_rewrite, apply_rules}
use proxy_sentinel.Storage.{WeightedBackend}
use proxy_sentinel.Proxy.Balancer.{DynamicBalancer}
use proxy_sentinel.Proxy.Rules.{match_request, match_rules, rule_hits}
use proxy_sentinel.Proxy.RequestId.{all_printable, hex_encode, resolve_request_id}
use proxy_sentinel.Proxy.Recorder.{writes_header, writes, new_recorder, calls, fresh_client}
use proxy_sentinel.Proxy.Recorder.Laws.{calls_faithful}
use proxy_sentinel.Proxy.Request.{Request, remote_ip, read_limited, client_ip, append_xff, scheme}
use proxy_sentinel.Proxy.Handler.{
  relay, direct, buffer_body, plan_sized, is_zero_length, buffered, Handler, World, Exchange,
  OutRequest, responded, serve, dispatch, choose, plan_body,
}
use proxy_sentinel.Proxy.Handler.Limits.{IsWithin, plan_body-IsWithin}
use proxy_sentinel.Proxy.Handler.Forward.{IsReverseProxy, serve_untrusted}
use proxy_sentinel.Proxy.Handler.Relaying.{Agrees, serve-Agrees}

abbrev backends : List WeightedBackend
backends = record { url = bytes "http://a"; weight = pos 1; health_path = [] } ∷ []

abbrev balancer : DynamicBalancer
balancer = record {
  strategy = bytes "round_robin";
  backends = backends;
  healthy = (bytes "http://a", true) ∷ [];
  counter = 0;
}

abbrev handler : Handler
handler = record {
  balancer = balancer;
  has_logger = true;
  max_body = 16;
  max_upload = 64;
  log_max = 8;
  trust_xff = false;
  rules = some [];
  rewrites = some [];
}

-- The handler with a rule for the API.
abbrev ruled : Handler
ruled = record handler {
  rules = some (
      record { type = bytes "path"; key = []; value = bytes "/api"; backend = bytes "http://b" }
      ∷ []);
}

-- A client that forges the header.
abbrev request : Request
request = record {
  method = bytes "POST";
  path = bytes "/proxy/api/users";
  query = [];
  host = bytes "gate";
  remote_addr = bytes "10.0.0.7:51234";
  tls = false;
  header = (bytes "X-Forwarded-For", bytes "1.2.3.4" ∷ []) ∷ [];
  cookies = [];
  content_length = pos 5;
  body = some (record { content = bytes "hello"; fails_at = none });
}

abbrev eight : Text
eight = 0 ∷ 17 ∷ 34 ∷ 51 ∷ 68 ∷ 85 ∷ 102 ∷ 255 ∷ []

-- One parsed address for every text, and one outcome for every request.
abbrev world : Exchange → World
world x = record {
  intn = λ n. n - 1;
  random = some eight;
  now = 1000;
  finish = 1500;
  parse_url = λ u. some (record { scheme = bytes "http"; host = bytes "a"; path = [] });
  exchange = λ out. x;
  interim = λ out. 103 ∷ [];
  codecs = record { gunzip = λ s. none; inflate = λ s. none; valid_utf8 = λ s. true };
}

abbrev answer : Exchange
answer = responded 200 [] (bytes "ok" ∷ [])

plan_body-IsWithin_example : IsWithin handler request (plan_body handler request)
plan_body-IsWithin_example = plan_body-IsWithin handler request

serve-Agrees_example :
    let s = serve (world answer) handler request in Agrees (world answer) handler s s.reply
serve-Agrees_example = serve-Agrees (world answer) handler request

calls_faithful_example :
    let r =
      calls
        (new_recorder fresh_client 4)
        (writes (bytes "hello") ∷ writes_header 404 ∷ writes (bytes "!") ∷ []) in
    (r.client.written ≡ bytes "hello!") × (r.body ≡ bytes "hell") × (length r.client.codes ≤ 1)
calls_faithful_example =
    calls_faithful 4 (writes (bytes "hello") ∷ writes_header 404 ∷ writes (bytes "!") ∷ [])

fresh_id : resolve_request_id (some eight) 1000 (bytes "order 0001") ≡ bytes "req-00112233445566ff"
unfolding resolve_request_id all_printable hex_encode list_beq
fresh_id = refl

-- What `Director` prepares: the forged address is gone.
abbrev directed : OutRequest
directed = record {
  method = bytes "POST";
  target = record { scheme = bytes "http"; host = bytes "a"; path = bytes "/api/users" };
  query = [];
  header =
      (bytes "X-Forwarded-For", bytes "10.0.0.7" ∷ [])
      ∷ (bytes "X-Forwarded-Proto", bytes "http" ∷ [])
      ∷ (bytes "X-Forwarded-Host", bytes "gate" ∷ [])
      ∷ (bytes "X-Request-Id", bytes "req-00112233445566ff" ∷ [])
      ∷ [];
  body = buffered (bytes "hello");
}

sends : (serve (world answer) ruled request).directed ≡ some directed
unfolding serve dispatch relay direct choose match_request match_rules rule_hits plan_body
    plan_sized buffer_body is_zero_length read_limited resolve_request_id all_printable hex_encode
    trim_prefix trim_suffix has_prefix join_url_path apply_rewrite apply_rules client_ip remote_ip
    append_xff scheme split_host index_byte Header.get Header.set Header.canonical Map.lookup
    Map.insert list_beq
sends = refl

address : split_host (bytes "10.0.0.7:51234") ≡ some (bytes "10.0.0.7")
unfolding split_host index_byte list_beq
address = refl

-- The headers that a request's header Connection names, when it names one.
abbrev drops : Header → Text → Bool
drops h name = Header.canonical (Header.get h (bytes "Connection")) == Header.canonical name

abbrev clean : Header → Header
clean h =
    if drops h (bytes "X-Request-ID")
    then Map.erase (Header.canonical (bytes "X-Request-ID")) h
    else h

abbrev chain : Header → Text → Text
chain h ip =
    if drops h (bytes "X-Forwarded-For")
    then ip
    else Header.get h (bytes "X-Forwarded-For") ++ bytes ", " ++ ip

abbrev told : Option Text → Header → Header
told none h = clean h
told (some ip) h = Header.set (clean h) (bytes "X-Forwarded-For") (chain h ip)

abbrev forward : Text → Header → Header
forward addr h = told (split_host addr) h

other_name :
    ((Header.canonical (bytes "X-Forwarded-For") == Header.canonical (bytes "X-Request-ID"))
      ≡ false)
    × ((Header.canonical (bytes "X-Request-ID") == Header.canonical (bytes "X-Request-ID")) ≡ true)
    × ((Header.canonical (bytes "X-Forwarded-For") == Header.canonical (bytes "X-Forwarded-For"))
        ≡ true)
unfolding Header.canonical list_beq
other_name = (refl, refl, refl)

-- X-Request-ID is as the removal leaves it.
told_id :
    (o : Option Text) (h : Header)
    → Header.get (told o h) (bytes "X-Request-ID") ≡ Header.get (clean h) (bytes "X-Request-ID")
told_id none h = refl
told_id (some ip) h =
    get-set (clean h) (bytes "X-Forwarded-For") (bytes "X-Request-ID") (chain h ip)
    ∙ rw other_name.0

told-chain :
    (h : Header) (ip : Text) → Header.get (told (some ip) h) (bytes "X-Forwarded-For") ≡ chain h ip
told-chain h ip =
    get-set (clean h) (bytes "X-Forwarded-For") (bytes "X-Forwarded-For") (chain h ip)
    ∙ rw other_name.2

erased_id :
    (h : Header)
    → Header.get (Map.erase (Header.canonical (bytes "X-Request-ID")) h) (bytes "X-Request-ID") ≡ []
unfolding Header.get
erased_id h =
    let name = Header.canonical (bytes "X-Request-ID") in
    rw (lookup-erase name name h, other_name.1)

forward-IsReverseProxy : IsReverseProxy drops forward
forward-IsReverseProxy = record {
  appends = λ addr ip prior h e known.
      ap (λ o. Header.get (told o h) (bytes "X-Forwarded-For")) e
      ∙ told-chain h ip
      ∙ ap (λ v. if drops h (bytes "X-Forwarded-For") then ip else v ++ bytes ", " ++ ip)
          (unfold Header.get in rw known);
  removes = λ addr h gone. told_id (split_host addr) h ∙ rw gone (erased_id h);
  passes = λ addr h kept. told_id (split_host addr) h ∙ rw kept;
}

serve_untrusted_example :
    let sent = forward (bytes "10.0.0.7:51234") directed.header in
    (Header.get sent (bytes "X-Forwarded-For") ≡ (
      if drops directed.header (bytes "X-Forwarded-For")
      then bytes "10.0.0.7"
      else bytes "10.0.0.7" ++ bytes ", " ++ bytes "10.0.0.7"))
    × (Header.get sent (bytes "X-Request-ID") ≡ (
        if drops directed.header (bytes "X-Request-ID")
        then []
        else (serve (world answer) ruled request).id))
serve_untrusted_example =
    serve_untrusted drops forward (world answer) ruled request directed (bytes "10.0.0.7")
      forward-IsReverseProxy refl address sends

-- ===== src/Proxy/Handler/Relaying.antt =====
-- What the client is sent and what the log says of it, after the exchange with a backend or without one.
use mathlib.Core.Path.{subst⁻¹}
use proxy_sentinel.Base.Text.{Text, bytes}
use proxy_sentinel.Base.{
  ℕ, ◌≤◌, ◌≡◌, refl, ◌∙◌, sym, ap, Bool, true, false, List, [], ◌∷◌, ◌++◌, none, some, arith,
  nat_eq, list_eq, length, length-take, take,
}
use proxy_sentinel.Proxy.Request.{Request, client_ip}
use proxy_sentinel.Proxy.Recorder.{
  Recorder, new_recorder, calls, write, write_header, begin, set_status, set_headers, fresh_client,
  Call, call, truncate_string,
}
use proxy_sentinel.Proxy.Handler.{
  Handler, World, Served, Reply, json_error, relayed, crashed, relay, serve, OutBody, OutRequest,
  Target, Exchange, responded, failed, direct, exchange_calls, write_headers, write_chunks,
  error_json, LogRecord, log_record,
}
use proxy_sentinel.Proxy.Handler.Routing.{stripped_of, id_of, chosen, serve_cases, dispatch_cases}
use proxy_sentinel.Proxy.Paths.{join_url_path}
use proxy_sentinel.Proxy.Rewrite.{apply_rewrite}
use mathlib.Core.List.{append-nil, append_assoc}

unfoldable pub concat : List Text → Text
concat [] = []
concat (c ∷ cs) = c ++ concat cs

-- What the client and the log get of an exchange.
abbrev pub Relays : List ℕ → Exchange → Recorder → Type 0
Relays interim (responded status header body) rec =
    (rec.status ≡ status)
    × (rec.headers ≡ header)
    × (rec.client.codes ≡ take 1 (interim ++ status ∷ []))
    × (rec.client.written ≡ concat body)
Relays interim (failed true) rec =
    (rec.status ≡ 499) × (rec.client.codes ≡ take 1 interim) × (rec.client.written ≡ [])
Relays interim (failed false) rec =
    (rec.status ≡ 502)
    × (rec.client.codes ≡ take 1 (interim ++ 502 ∷ []))
    × (rec.client.written ≡ error_json (bytes "backend unavailable"))

write_keeps :
    (c : Text) (r : Recorder)
    → r.wrote_header ≡ true
    → ((write c r).wrote_header ≡ true)
      × ((write c r).status ≡ r.status)
      × ((write c r).headers ≡ r.headers)
      × ((write c r).client.codes ≡ r.client.codes)
      × ((write c r).client.written ≡ r.client.written ++ c)
unfolding write begin
write_keeps c r sent = ground arith

write_chunks_lem :
    (r : Recorder) (body : List Text)
    → r.wrote_header ≡ true
    → let r' = calls r (write_chunks body) in
      (r'.status ≡ r.status)
      × (r'.headers ≡ r.headers)
      × (r'.client.codes ≡ r.client.codes)
      × (r'.client.written ≡ r.client.written ++ concat body)
unfolding calls write_chunks concat
write_chunks_lem r [] sent = (refl, refl, refl, sym (append-nil r.client.written))
write_chunks_lem r (c ∷ body) sent =
    let (on, status, headers, codes, added) = write_keeps c r sent in
    let (status', headers', codes', all) = write_chunks_lem (write c r) body on in
    (
      status' ∙ status,
      headers' ∙ headers,
      codes' ∙ codes,
      all ∙ ap (λ s. s ++ concat body) added ∙ append_assoc r.client.written c (concat body),
    )

calls-append : (r : Recorder) (xs ys : List Call) → calls r (xs ++ ys) ≡ calls (calls r xs) ys
unfolding calls
calls-append r [] ys = refl
calls-append r (c ∷ xs) ys = calls-append (call r c) xs ys

-- Behind the first status line there is no other.
write_header_idle : (c : ℕ) (r : Recorder) → r.wrote_header ≡ true → write_header c r ≡ r
unfolding write_header
write_header_idle c r on = ground (arith, on)

write_headers_idle :
    (r : Recorder) (codes : List ℕ) → r.wrote_header ≡ true → calls r (write_headers codes) ≡ r
unfolding calls call write_headers
write_headers_idle r [] on = refl
write_headers_idle r (c ∷ codes) on =
    ap (λ s. calls s (write_headers codes)) (write_header_idle c r on)
    ∙ write_headers_idle r codes on

-- The recorder after the interim answers.
abbrev begun : List ℕ → ℕ → Recorder
begun [] max = new_recorder fresh_client max
begun (code ∷ codes) max = write_header code (new_recorder fresh_client max)

begun_lem :
    (interim : List ℕ) (max : ℕ)
    → calls (new_recorder fresh_client max) (write_headers interim) ≡ begun interim max
unfolding calls call write_headers
begun_lem [] max = refl
begun_lem (code ∷ codes) max =
    write_headers_idle (write_header code (new_recorder fresh_client max)) codes
      (unfold write_header new_recorder in refl)

begun-Relays :
    (interim : List ℕ) (x : Exchange) (max : ℕ)
    → Relays interim x (calls (begun interim max) (exchange_calls x))
unfolding exchange_calls calls call new_recorder set_status set_headers write_header write begin
begun-Relays [] (responded status header body) max =
    write_chunks_lem
      (write_header status (set_headers header (set_status status (new_recorder fresh_client max))))
      body refl
begun-Relays (code ∷ codes) (responded status header body) max =
    write_chunks_lem
      (set_headers header (set_status status (write_header code (new_recorder fresh_client max))))
      body refl
begun-Relays [] (failed true) max = (refl, refl, refl)
begun-Relays (code ∷ codes) (failed true) max = (refl, refl, refl)
begun-Relays [] (failed false) max = (refl, refl, refl)
begun-Relays (code ∷ codes) (failed false) max = (refl, refl, refl)

-- The calls of the interim answers and of the end of an exchange.
abbrev all_calls : World → OutRequest → List Call
all_calls w out = write_headers (w.interim out) ++ exchange_calls (w.exchange out)

exchange-Relays :
    (w : World) (out : OutRequest) (max : ℕ)
    → Relays
        (w.interim out)
        (w.exchange out)
        (calls (new_recorder fresh_client max) (all_calls w out))
exchange-Relays w out max =
    let last = exchange_calls (w.exchange out) in
    subst⁻¹ (Relays (w.interim out) (w.exchange out))
      (calls-append (new_recorder fresh_client max) (write_headers (w.interim out)) last
        ∙ ap (λ r. calls r last) (begun_lem (w.interim out) max))
      (begun-Relays (w.interim out) (w.exchange out) max)

length-truncate_string : (s : Text) (max : ℕ) → length (truncate_string s max) ≤ max
unfolding truncate_string
length-truncate_string s max = ground (arith, length-take max s)

-- What a log record says of the reply that it stands for.
abbrev pub Logs : Handler → Served → Recorder → LogRecord → Type 0
Logs h s rec l =
    (s.logged ≡ some l)
    × (l.status ≡ rec.status)
    × (l.request_id ≡ s.id)
    × (length l.request_body ≤ h.log_max)

-- A handler with a logger logs the reply; one without logs nothing.
abbrev pub IsLogged : Handler → Served → Recorder → Bool → Type 0
IsLogged h s rec true = (l : LogRecord) × Logs h s rec l
IsLogged h s rec false = s.logged ≡ none

-- Reply, request and log record of one request agree: an error of the handler's own means that there was
-- no exchange and nothing is logged; any other reply relays the exchange of one request, and a handler with a logger logs its status, its ID and a bounded front of the request body.
abbrev pub Agrees : World → Handler → Served → Reply → Type 0
Agrees w h s (json_error code msg) = (s.directed ≡ none) × (s.logged ≡ none)
Agrees w h s crashed = (s.directed ≡ none) × (s.logged ≡ none)
Agrees w h s (relayed rec) =
    (out : OutRequest) × (s.directed ≡ some out)
    × Relays (w.interim out) (w.exchange out) rec
    × IsLogged h s rec h.has_logger

relay-IsLogged :
    (w : World) (h : Handler) (r : Request) (id stripped backend log : Text) (body : OutBody)
    (t : Target) (on : Bool)
    → h.has_logger ≡ on
    → let s = relay w h r id stripped backend log body t in
      let path = join_url_path t.path (apply_rewrite h.rewrites stripped backend) in
      let out = direct h r t path (client_ip h.trust_xff r) id body in
      IsLogged h s (calls (new_recorder fresh_client h.log_max) (all_calls w out)) on
unfolding relay
relay-IsLogged w h r id stripped backend log body t false off = rw off refl
relay-IsLogged w h r id stripped backend log body t true on =
    let path = join_url_path t.path (apply_rewrite h.rewrites stripped backend) in
    let out = direct h r t path (client_ip h.trust_xff r) id body in
    let rec = calls (new_recorder fresh_client h.log_max) (all_calls w out) in
    (
      log_record w h r log rec (client_ip h.trust_xff r) backend id,
      (
        rw on refl,
        unfold log_record in refl,
        unfold log_record in refl,
        unfold log_record in length-truncate_string log h.log_max,
      ),
    )

relay-Agrees :
    (w : World) (h : Handler) (r : Request) (id stripped backend log : Text) (body : OutBody)
    (t : Target)
    → let s = relay w h r id stripped backend log body t in Agrees w h s s.reply
unfolding relay
relay-Agrees w h r id stripped backend log body t =
    let path = join_url_path t.path (apply_rewrite h.rewrites stripped backend) in
    let out = direct h r t path (client_ip h.trust_xff r) id body in
    let rec = calls (new_recorder fresh_client h.log_max) (all_calls w out) in
    (
      out,
      refl,
      exchange-Relays w out h.log_max,
      relay-IsLogged w h r id stripped backend log body t h.has_logger refl,
    )

-- An error that the handler answers itself, or a panic of the balancer, means that there was no exchange
-- and nothing is logged. After an exchange the client's writer is given one status line, that of the first
-- 1xx answer or, if there was none, the backend's status, or 502 for a failure, or no line if the client has
-- gone; and it is given the backend's body, or the error for 502. A handler with a logger logs the status of
-- the exchange, 499 if the client has gone, whatever line the client was given, with the ID of the request
-- and at most `log_max` bytes of its body; one without logs nothing.
pub serve-Agrees :
    (w : World) (h : Handler) (r : Request) → let s = serve w h r in Agrees w h s s.reply
serve-Agrees w h r =
    serve_cases (λ s _. Agrees w h s s.reply) w h r (refl, refl) (refl, refl)
      (λ backend _.
        dispatch_cases (λ s. Agrees w h s s.reply) w (chosen w h r) r (id_of w r) (stripped_of r)
          backend (λ code msg. (refl, refl))
          (λ log body t. relay-Agrees w (chosen w h r) r _ _ backend log body t))

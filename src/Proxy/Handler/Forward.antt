-- ===== src/Proxy/Handler/Forward.antt =====
-- What the backend is told of the client.
use proxy_sentinel.Base.Map
use proxy_sentinel.Base.Map.{lookup-insert}
use proxy_sentinel.Net.Addr.{split_host}
use proxy_sentinel.Base.Text.{Text, bytes}
use proxy_sentinel.Base.{
  ◌≡◌, refl, ◌∙◌, ap, Bool, true, false, [], ◌∷◌, ◌++◌, some, arith, ◌==◌, nat_eq, list_eq,
  list_beq, if◌then◌else◌, Bool-cases, inl, inr,
}
use proxy_sentinel.Net.Header
use proxy_sentinel.Net.Header.{Header, get-set}
use proxy_sentinel.Proxy.Request.{Request, client_ip, remote_ip, append_xff}
use proxy_sentinel.Proxy.Handler.{
  Handler, World, Served, relay, serve, OutBody, OutRequest, Target, direct,
}
use proxy_sentinel.Proxy.Handler.Routing.{stripped_of, id_of, chosen, serve_cases, dispatch_cases}
use proxy_sentinel.Proxy.Paths.{join_url_path}
use proxy_sentinel.Proxy.Rewrite.{apply_rewrite}

-- The four headers that the handler sets have four canonical names.
canonical_ne :
    ((Header.canonical (bytes "X-Request-ID") == Header.canonical (bytes "X-Forwarded-For"))
      ≡ false)
    × ((Header.canonical (bytes "X-Forwarded-Host") == Header.canonical (bytes "X-Forwarded-For"))
        ≡ false)
    × ((Header.canonical (bytes "X-Forwarded-Proto") == Header.canonical (bytes "X-Forwarded-For"))
        ≡ false)
unfolding Header.canonical list_beq
canonical_ne = (refl, refl, refl)

canonical_eq :
    ((Header.canonical (bytes "X-Request-ID") == Header.canonical (bytes "X-Request-ID")) ≡ true)
    × ((Header.canonical (bytes "X-Forwarded-For") == Header.canonical (bytes "X-Forwarded-For"))
        ≡ true)
unfolding Header.canonical list_beq
canonical_eq = (refl, refl)

-- What `Director` says of the client when forwarded headers are not trusted: its address from the
-- connection, as the only value, and the ID of the request.
direct_untrusted :
    (h : Handler) (r : Request) (t : Target) (path client id : Text) (body : OutBody)
    → h.trust_xff ≡ false
    → let out = direct h r t path client id body in
      (Map.lookup (Header.canonical (bytes "X-Forwarded-For")) out.header ≡ some (client ∷ []))
      × (Header.get out.header (bytes "X-Request-ID") ≡ id)
unfolding direct append_xff
direct_untrusted h r t path client id body off = (
  rw off (
      unfold Header.set in
      simp (lookup-insert, canonical_ne.0, canonical_ne.1, canonical_ne.2, canonical_eq.1)),
  simp (get-set, canonical_eq.0),
)

client_ip_untrusted : (r : Request) → client_ip false r ≡ remote_ip r
unfolding client_ip
client_ip_untrusted r = refl

-- What may be said of the request that `Director` has prepared, if there is one.
abbrev IsMarked : Request → Served → Type 0
IsMarked r s =
    (out : OutRequest)
    → s.directed ≡ some out
    → (Map.lookup (Header.canonical (bytes "X-Forwarded-For")) out.header ≡ some (remote_ip r ∷ []))
      × (Header.get out.header (bytes "X-Request-ID") ≡ s.id)

relay-IsMarked :
    (w : World) (h : Handler) (r : Request) (id stripped backend log : Text) (body : OutBody)
    (t : Target)
    → h.trust_xff ≡ false
    → IsMarked r (relay w h r id stripped backend log body t)
unfolding relay
relay-IsMarked w h r id stripped backend log body t off out e =
    let path = join_url_path t.path (apply_rewrite h.rewrites stripped backend) in
    let (told, tagged) = direct_untrusted h r t path (client_ip h.trust_xff r) id body off in
    let same : out ≡ direct h r t path (client_ip h.trust_xff r) id body = ground (arith, e) in
    rw same (
      told
          ∙ ap (λ b. some (client_ip b r ∷ [])) off
          ∙ ap (λ a. some (a ∷ [])) (client_ip_untrusted r),
      tagged,
    )

serve-IsMarked :
    (w : World) (h : Handler) (r : Request) → h.trust_xff ≡ false → IsMarked r (serve w h r)
serve-IsMarked w h r off =
    serve_cases (λ s _. IsMarked r s) w h r (λ out e. absurd (ground (arith, e)))
      (λ out e. absurd (ground (arith, e)))
      (λ backend _.
        dispatch_cases (λ s. IsMarked r s) w (chosen w h r) r (id_of w r) (stripped_of r) backend
          (λ code msg out e. absurd (ground (arith, e)))
          (λ log body t. relay-IsMarked w (chosen w h r) r _ _ backend log body t off))

-- What the handler relies on when ReverseProxy takes the headers that `Director` leaves, with the address of
-- the connection, to those that it sends. `drops` tells whether it takes a header for one of the connection,
-- by its name or because the header Connection names it. It removes those, and then appends the address of
-- the connection to X-Forwarded-For.
pub record IsReverseProxy (drops : Header → Text → Bool) (forward : Text → Header → Header)
    : Type 0 where
  pub appends :
      (addr ip prior : Text) (h : Header)
      → split_host addr ≡ some ip
      → Map.lookup (Header.canonical (bytes "X-Forwarded-For")) h ≡ some (prior ∷ [])
      → Header.get (forward addr h) (bytes "X-Forwarded-For")
        ≡ (if drops h (bytes "X-Forwarded-For") then ip else prior ++ bytes ", " ++ ip)
  pub removes :
      (addr : Text) (h : Header)
      → drops h (bytes "X-Request-ID") ≡ true
      → Header.get (forward addr h) (bytes "X-Request-ID") ≡ []
  pub passes :
      (addr : Text) (h : Header)
      → drops h (bytes "X-Request-ID") ≡ false
      → Header.get (forward addr h) (bytes "X-Request-ID") ≡ Header.get h (bytes "X-Request-ID")

remote_ip_host :
    (r : Request) (host : Text) → split_host r.remote_addr ≡ some host → remote_ip r ≡ host
unfolding remote_ip
remote_ip_host r host e = ground (arith, e)

-- If ReverseProxy does what it documents, forwarded headers are not trusted, and the address of the
-- connection has a host, then the X-Forwarded-For that a backend is sent holds that host and nothing of the
-- client's headers: twice, as the handler sets it and ReverseProxy appends it, or once where the header is
-- taken for one of the connection. The X-Request-ID that it is sent is the ID with which the client is
-- answered, but where ReverseProxy takes that header for one of the connection it is sent none.
pub serve_untrusted :
    (drops : Header → Text → Bool) (forward : Text → Header → Header) (w : World) (h : Handler)
    (r : Request) (out : OutRequest) (host : Text)
    → IsReverseProxy drops forward
    → h.trust_xff ≡ false
    → split_host r.remote_addr ≡ some host
    → (serve w h r).directed ≡ some out
    → let sent = forward r.remote_addr out.header in
      (Header.get sent (bytes "X-Forwarded-For")
        ≡ (if drops out.header (bytes "X-Forwarded-For") then host else host ++ bytes ", " ++ host))
      × (Header.get sent (bytes "X-Request-ID")
          ≡ (if drops out.header (bytes "X-Request-ID") then [] else (serve w h r).id))
serve_untrusted drops forward w h r out host proxy off address e =
    let (told, tagged) = serve-IsMarked w h r off out e in
    let own = told ∙ ap (λ a. some (a ∷ [])) (remote_ip_host r host address) in
    (proxy.appends r.remote_addr host host out.header address own, marked tagged)
  where
    marked :
        Header.get out.header (bytes "X-Request-ID") ≡ (serve w h r).id
        → Header.get (forward r.remote_addr out.header) (bytes "X-Request-ID")
          ≡ (if drops out.header (bytes "X-Request-ID") then [] else (serve w h r).id)
    marked tagged = elim (Bool-cases (drops out.header (bytes "X-Request-ID"))) [
      | inl gone ↦ rw gone (proxy.removes r.remote_addr out.header gone)
      | inr kept ↦ rw kept (proxy.passes r.remote_addr out.header kept ∙ tagged)
    ]

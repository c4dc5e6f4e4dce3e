-- ===== src/Api/Router/Guards.antt =====
-- Who reaches which handler.
use mathlib.Core.Path.{subst}
use proxy_sentinel.Base.Affix.{text_eq_iff}
use proxy_sentinel.Base.Text.{Text, bytes}
use proxy_sentinel.Base.{
  ℕ, zero, suc, ◌≡◌, refl, ap, ◌∙◌, true, List, [], ◌∷◌, Option, some, map, arith, get_elem?, ◌==◌,
  nat_eq, list_eq, All, Option-cases, Bool-cases, inl, inr,
}
use proxy_sentinel.Auth.ProxyAuth.{Bearer}
use proxy_sentinel.Auth.WebAuth.{
  Claims, Cache, Verdict, passes, refused, middleware, role_of, admin_only, IsCurrent,
  middleware-IsCurrent,
}
use proxy_sentinel.Ratelimit.{Floats}
use proxy_sentinel.Api.Gate.{Entry, admitted, turned_away, enter}
use proxy_sentinel.Api.Gate.Admission.{IsAdmitted, enter-IsAdmitted}
use proxy_sentinel.Api.Router.{
  Endpoint, Session, Guard, Visit, Visitor, Front, web_page, web_json, admins, unguarded, gated,
  signed_in, session, holder, reached, routes, by_verdict, pass_guard, serve_http,
}
use proxy_sentinel.Api.Router.Needs.{
  Need, nothing, a_session, an_administrator, a_token, need, suffices, routes-suffice,
}

-- The cookie verifies for a user and a role, in the version that the user table or the cache has.
pub record IsSignedIn (v : Visit) (m : Cache) (u role : Text) : Type 0 where
  pub token : Text
  pub claims : Claims
  pub cookie : v.cookie ≡ some token
  pub verified : v.parse token ≡ some claims
  pub name : u ≡ claims.username
  pub kind : role ≡ role_of claims
  pub current : IsCurrent v.knock.now v.find m claims

get_elem?-All :
    {A : Type 0} (P : A → Type 0) (xs : List A) (i : ℕ) (x : A)
    → All P xs
    → get_elem? xs i ≡ some x
    → P x
get_elem?-All P [] i x h e = absurd (ground (arith, e))
get_elem?-All P (y ∷ ys) zero x (h, hs) e = let same : y ≡ x = ground (arith, e) in subst P same h
get_elem?-All P (y ∷ ys) (suc i) x (h, hs) e = get_elem?-All P ys i x hs e

middleware-IsSignedIn :
    (v : Visit) (m : Cache) (u role : Text)
    → (middleware v.parse v.knock.now v.find v.cookie m).0 ≡ passes u role
    → IsSignedIn v m u role
middleware-IsSignedIn v m u role e =
    let (token, claims, cookie, verified, name, kind, current) =
      middleware-IsCurrent v.parse v.knock.now v.find v.cookie m u role e in
    record {
      token = token;
      claims = claims;
      cookie = cookie;
      verified = verified;
      name = name;
      kind = kind;
      current = current;
    }

-- A session that lets a visitor through has one, and of an administrator if it asks for that.
by_verdict-reached :
    (kind : Session) (e e' : Endpoint) (x : Verdict) (w : Visitor)
    → by_verdict kind e x ≡ reached e' w
    → (e ≡ e')
      × ((u : Text) × (role : Text) × (x ≡ passes u role)
          × (w ≡ session u role)
          × (suffices (signed_in kind) an_administrator ≡ true → role ≡ bytes "admin"))
unfolding by_verdict suffices admin_only
by_verdict-reached web_page e e' (refused c) w h = absurd (ground (arith, h))
by_verdict-reached web_page e e' (passes u role) w h =
    (ground (arith, h), (u, role, refl, ground (arith, h), λ q. absurd (ground (arith, q))))
by_verdict-reached web_json e e' (refused c) w h = absurd (ground (arith, h))
by_verdict-reached web_json e e' (passes u role) w h =
    (ground (arith, h), (u, role, refl, ground (arith, h), λ q. absurd (ground (arith, q))))
by_verdict-reached admins e e' (refused c) w h = absurd (ground (arith, h))
by_verdict-reached admins e e' (passes u role) w h = elim (Bool-cases (role == bytes "admin")) [
  | inl admin ↦ (
    ground (arith, h, admin),
    (u, role, refl, ground (arith, h, admin), λ q. (text_eq_iff role (bytes "admin")).0 admin),
  )
  | inr other ↦ absurd (ground (arith, h, other))
]

module _ {F : Type 0} (fl : Floats F) where
  -- What is known of a visitor who has got through.
  abbrev pub IsEntitled : Visit → Front F → Need → Visitor → Type 0
  IsEntitled v s nothing w = Unit
  IsEntitled v s a_session w =
      (u : Text) × (role : Text) × (w ≡ session u role) × IsSignedIn v s.cache u role
  IsEntitled v s an_administrator w =
      (u : Text) × (w ≡ session u (bytes "admin")) × IsSignedIn v s.cache u (bytes "admin")
  IsEntitled v s a_token w = (b : Bearer) × (w ≡ holder b) × IsAdmitted fl v.knock s.gate b

  by_token :
      (v : Visit) (s : Front F) (w : Visitor) (n : Need) (b : Bearer)
      → suffices gated n ≡ true
      → w ≡ holder b
      → IsAdmitted fl v.knock s.gate b
      → IsEntitled v s n w
  unfolding suffices
  by_token v s w nothing b h same a = tt
  by_token v s w a_session b h same a = absurd (ground (arith, h))
  by_token v s w an_administrator b h same a = absurd (ground (arith, h))
  by_token v s w a_token b h same a = (b, same, a)

  by_session :
      (v : Visit) (s : Front F) (w : Visitor) (kind : Session) (n : Need) (u role : Text)
      → suffices (signed_in kind) n ≡ true
      → w ≡ session u role
      → (suffices (signed_in kind) an_administrator ≡ true → role ≡ bytes "admin")
      → IsSignedIn v s.cache u role
      → IsEntitled v s n w
  unfolding suffices
  by_session v s w kind nothing u role h same admin i = tt
  by_session v s w kind a_session u role h same admin i = (u, role, same, i)
  by_session v s w kind an_administrator u role h same admin i =
      (u, same ∙ ap (session u) (admin h), subst (IsSignedIn v s.cache u) (admin h) i)
  by_session v s w kind a_token u role h same admin i = absurd (ground (arith, h))

  pass_guard-IsEntitled :
      (v : Visit) (guard : Guard) (e e' : Endpoint) (s : Front F) (w : Visitor) (n : Need)
      → suffices guard n ≡ true
      → (pass_guard fl v guard e s).0 ≡ reached e' w
      → (e ≡ e') × IsEntitled v s n w
  unfolding pass_guard suffices
  pass_guard-IsEntitled v unguarded e e' s w n h r = (ground (arith, r), open_to_all n h)
    where
      open_to_all : (n : Need) → suffices unguarded n ≡ true → IsEntitled v s n w
      open_to_all nothing q = tt
      open_to_all a_session q = absurd (ground (arith, q))
      open_to_all an_administrator q = absurd (ground (arith, q))
      open_to_all a_token q = absurd (ground (arith, q))
  pass_guard-IsEntitled v gated e e' s w n h r = by_entry (enter fl v.knock s.gate).0 refl
    where
      by_entry : (x : Entry) → (enter fl v.knock s.gate).0 ≡ x → (e ≡ e') × IsEntitled v s n w
      by_entry (turned_away status) q = absurd (ground (arith, q, r))
      by_entry (admitted b) q = (
        ground (arith, q, r),
        by_token v s w n b h (ground (arith, q, r)) (enter-IsAdmitted fl v.knock s.gate b q),
      )
  pass_guard-IsEntitled v (signed_in kind) e e' s w n h r =
      let (same, (u, role, passed, is_w, admin)) =
        by_verdict-reached kind e e' (middleware v.parse v.knock.now v.find v.cookie s.cache).0 w
          r in
      (
        same,
        by_session v s w kind n u role h is_w admin (middleware-IsSignedIn v s.cache u role passed),
      )

  -- Whatever pattern the multiplexer chooses, a handler is reached only by a visitor who has what it needs: for
  -- a change of the settings, the IP lists, the alerts, the tokens or the users, for a purge and for the audit
  -- log, a session of an administrator whose token is current; for other reading a session whose token is
  -- current; and for the backends what the IP lists, the bearer tokens and the limits ask.
  pub serve_http-IsEntitled :
      (pick : List Text → Text → Text → Option ℕ) (v : Visit) (s : Front F) (e : Endpoint)
      (w : Visitor)
      → (serve_http fl pick v s).0 ≡ reached e w
      → IsEntitled v s (need e) w
  unfolding serve_http
  serve_http-IsEntitled pick v s e w r =
      elim (Option-cases (pick (map (λ r. r.pattern) routes) v.method v.path)) [
        | inl none_ ↦ absurd (ground (arith, none_, r))
        | inr (i, chosen) ↦ elim (Option-cases (get_elem? routes i)) [
          | inl out ↦ absurd (ground (arith, chosen, out, r))
          | inr (x, found) ↦
              let enough =
                get_elem?-All (λ r. suffices r.guard (need r.endpoint) ≡ true) routes i x
                  routes-suffice found in
              let (same, entitled) =
                pass_guard-IsEntitled v x.guard x.endpoint e s w (need x.endpoint) enough
                  (ground (arith, chosen, found, r)) in
              subst (λ y. IsEntitled v s (need y) w) same entitled
        ]
      ]

-- ===== src/Api/Gate/Admission.antt =====
-- Who gets through to the proxy.
use mathlib.Core.Path.{subst}
use proxy_sentinel.Base.Int.{pos, ltb_ℤ}
use proxy_sentinel.Base.Table.{find_row}
use proxy_sentinel.Base.Text.{Text, bytes, has_prefix, trim_prefix, trim_space}
use proxy_sentinel.Base.{
  ℕ, ◌≡◌, ◌≢◌, ◌⊎◌, ◌∙◌, sym, ap, refl, inl, inr, true, false, none, some, arith, Bool-cases,
}
use proxy_sentinel.Storage.Tokens.{Tokens, ProxyToken, hash_token, has_id, valid_token}
use proxy_sentinel.Storage.Tokens.Laws.{AllDiffer, delete_token_lem}
use proxy_sentinel.Auth.ProxyAuth.{
  Bearer, Answer, authorized, rejected, authenticate, authenticate_authorized,
}
use proxy_sentinel.Ratelimit.{Floats, allow}
use proxy_sentinel.Api.Tokens.{rate_limit, effective_limit, Call, Site, delete_token, audit}
use proxy_sentinel.Api.Users.{path_id}
use proxy_sentinel.Storage.Tokens
use proxy_sentinel.Api.Gate.{
  Gate, Knock, admitted, turned_away, ip_allowed, throttle, check_bearer, enter,
}

module _ {F : Type 0} (fl : Floats F) where
  -- No limit holds for the bearer, or the limiter lets the request pass.
  abbrev pub IsWithin : Knock → Gate F → Bearer → Type 0
  IsWithin k g b =
      let limit = effective_limit k.default_rpm b.rate_limit_rpm in
      (ltb_ℤ (pos 0) limit ≡ false) ⊎ ((allow fl k.now b.token_id limit g.limiter).0.0 ≡ true)

  -- Everything that a request needs to get through.
  pub record IsAdmitted (k : Knock) (g : Gate F) (b : Bearer) : Type 0 where
    pub address : ip_allowed k g.acl ≡ true
    pub scheme : has_prefix (bytes "Bearer ") k.authorization ≡ true
    pub token : b.token ≡ trim_space (trim_prefix (bytes "Bearer ") k.authorization)
    pub valid :
        (valid_token k.sha k.faults.marks k.now b.token g.tokens).0
        ≡ some (b.token_id, b.rate_limit_rpm)
    pub limit : IsWithin k g b

  throttle_admits :
      (k : Knock) (b b' : Bearer) (g : Gate F)
      → (throttle fl k b g).0 ≡ admitted b'
      → (b ≡ b') × IsWithin k g b
  unfolding throttle rate_limit
  throttle_admits k b b' g e =
      let limit = effective_limit k.default_rpm b.rate_limit_rpm in
      elim (Bool-cases (ltb_ℤ (pos 0) limit)) [
        | inr off ↦ (ground (arith, off, e), inl off)
        | inl on ↦ elim (Bool-cases (allow fl k.now b.token_id limit g.limiter).0.0) [
          | inl good ↦ (ground (arith, on, good, e), inr good)
          | inr bad ↦ absurd (ground (arith, on, bad, e))
        ]
      ]

  check_bearer_admits :
      (k : Knock) (b : Bearer) (g : Gate F)
      → (check_bearer fl k g).0 ≡ admitted b
      → ((authenticate k.sha k.faults k.now k.authorization g.tokens).0 ≡ authorized b)
        × IsWithin k g b
  unfolding check_bearer
  check_bearer_admits k b g e =
      by_answer (authenticate k.sha k.faults k.now k.authorization g.tokens).0 refl
    where
      by_answer :
          (a : Answer)
          → (authenticate k.sha k.faults k.now k.authorization g.tokens).0 ≡ a
          → ((authenticate k.sha k.faults k.now k.authorization g.tokens).0 ≡ authorized b)
            × IsWithin k g b
      by_answer (rejected status) q = absurd (ground (arith, q, e))
      by_answer (authorized x) q =
          let g' : Gate F = record g {
            tokens = (authenticate k.sha k.faults k.now k.authorization g.tokens).1;
          } in
          let go : (check_bearer fl k g).0 ≡ (throttle fl k x g').0 = ground (arith, q) in
          let (same, within) = throttle_admits k x b g' (sym go ∙ e) in
          (q ∙ ap authorized same, subst (IsWithin k g) same within)

  -- A request reaches the proxy's handler only if the IP lists let the address of its connection pass, its
  -- header carries a bearer token that the table accepts at that time, and no limit holds for that token or
  -- the limiter lets the request pass under the limit of the token or else the default one.
  pub enter-IsAdmitted :
      (k : Knock) (g : Gate F) (b : Bearer) → (enter fl k g).0 ≡ admitted b → IsAdmitted k g b
  unfolding enter
  enter-IsAdmitted k g b e =
      let address : ip_allowed k g.acl ≡ true = ground (arith, e) in
      let (let_in, within) = check_bearer_admits k b g (ground (arith, address, e)) in
      let (scheme, token, full, valid) =
        authenticate_authorized k.sha k.faults k.now k.authorization g.tokens b let_in in
      record { address = address; scheme = scheme; token = token; valid = valid; limit = within }

  -- What an address that the IP lists refuse uses up: nothing.
  pub enter_barred :
      (k : Knock) (g : Gate F) → ip_allowed k g.acl ≡ false → enter fl k g ≡ (turned_away 403, g)
  unfolding enter
  enter_barred k g barred = ground (arith, barred)

-- What a deletion with the answer 200 does to the tokens.
delete_token_done :
    {F : Type 0} (c : Call) (path : Text) (id : ℕ) (s : Site F)
    → path_id path ≡ some id
    → (delete_token c path s).0 ≡ 200
    → (delete_token c path s).1.tokens ≡ (Tokens.delete_token id s.tokens).1
unfolding delete_token audit
delete_token_done c path id s named ok = ground (arith, named, ok)

-- In a table whose tokens differ: after a deletion of a row's token that is answered with 200, and with the
-- tokens that it leaves, no request with that token reaches the proxy's handler, whatever is done to the IP
-- lists and the buckets.
pub delete_token_bars :
    {F : Type 0} (fl : Floats F) (c : Call) (path : Text) (id : ℕ) (s : Site F) (p : ProxyToken)
    (k : Knock) (g : Gate F) (b : Bearer)
    → AllDiffer s.tokens.rows
    → path_id path ≡ some id
    → find_row (has_id id) s.tokens.rows ≡ some p
    → (delete_token c path s).0 ≡ 200
    → g.tokens ≡ (delete_token c path s).1.tokens
    → hash_token k.sha (trim_space (trim_prefix (bytes "Bearer ") k.authorization)) ≡ p.token
    → (enter fl k g).0 ≢ admitted b
delete_token_bars fl c path id s p k g b differ named found ok same hashed e =
    let a = enter-IsAdmitted fl k g b e in
    let now_ : g.tokens ≡ (Tokens.delete_token id s.tokens).1 =
      same ∙ delete_token_done c path id s named ok in
    let refused : (valid_token k.sha k.faults.marks k.now b.token g.tokens).0 ≡ none =
      ap (λ t. (valid_token k.sha k.faults.marks k.now b.token t).0) now_
      ∙ delete_token_lem k.sha k.faults.marks k.now id b.token s.tokens p differ found
          (sym hashed ∙ ap (hash_token k.sha) (sym a.token)) in
    ground (arith, sym a.valid ∙ refused)

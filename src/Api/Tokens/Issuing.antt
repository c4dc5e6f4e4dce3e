-- ===== src/Api/Tokens/Issuing.antt =====
-- A token that was issued is a token that is accepted.
use proxy_sentinel.Base.Int.{ℤ}
use proxy_sentinel.Base.Text.{Text, trim_space}
use proxy_sentinel.Base.{
  ℕ, ◌<◌, ◌≡◌, ◌∙◌, sym, ap, refl, inl, inr, Bool, true, Option, none, some, arith, Bool-cases,
  Option-cases,
}
use proxy_sentinel.Storage.Tokens
use proxy_sentinel.Storage.Tokens.{valid_token, is_live, new_token}
use proxy_sentinel.Storage.Tokens.Laws.{add_token-accepts}
use proxy_sentinel.Api.Tokens.{
  Call, Site, CreateTokenRequest, audit, refuses_fields, choose_token, expiry, insert_token,
  create_token,
}

-- The time at which a token ends, if it does, is still to come.
abbrev pub IsBefore : ℕ → Option ℕ → Type 0
IsBefore now none = Unit
IsBefore now (some e) = now < e

is_live-IsBefore :
    (sha : Text → Text) (made : ℕ) (token name : Text) (rpm : ℤ) (expires : Option ℕ) (id now : ℕ)
    → IsBefore now expires
    → is_live now (new_token sha made token name rpm expires id) ≡ true
unfolding is_live new_token
is_live-IsBefore sha made token name rpm none id now h = refl
is_live-IsBefore sha made token name rpm (some e) id now h = ground arith

-- What an answer 201 has done.
record IsIssued {F : Type 0} (c : Call) (q : CreateTokenRequest) (s s' : Site F) (token : Text)
    : Type 0 where
  pub stored :
      Tokens.add_token c.sha c.now token
        (trim_space q.name)
        q.rate_limit_rpm
        (expiry c.in_days q.expires_in_days)
        s.tokens
      ≡ some s'.tokens

insert_token-adds :
    {F : Type 0} (c : Call) (chosen token name : Text) (rpm : ℤ) (expires : Option ℕ) (s : Site F)
    → (insert_token c chosen name rpm expires s).0 ≡ (201, some token)
    → Tokens.add_token c.sha c.now token name rpm expires s.tokens
      ≡ some (insert_token c chosen name rpm expires s).1.tokens
unfolding insert_token audit
insert_token-adds c chosen token name rpm expires s e =
    elim (Option-cases (Tokens.add_token c.sha c.now chosen name rpm expires s.tokens)) [
      | inl taken ↦ absurd (ground (arith, taken, e))
      | inr (t', added) ↦
          let same : chosen ≡ token = ground (arith, added, e) in
          ap (λ x. Tokens.add_token c.sha c.now x name rpm expires s.tokens) (sym same)
          ∙ added
          ∙ ground (arith, added, e)
    ]

create_token-adds :
    {F : Type 0} (c : Call) (q : CreateTokenRequest) (s : Site F) (token : Text)
    → (create_token c (some q) s).0 ≡ (201, some token)
    → IsIssued c q s (create_token c (some q) s).1 token
unfolding create_token
create_token-adds c q s token e =
    let name = trim_space q.name in
    elim (Bool-cases (refuses_fields name q.rate_limit_rpm q.expires_in_days)) [
      | inl bad ↦ absurd (ground (arith, bad, e))
      | inr good ↦ elim (Option-cases (choose_token c.random (trim_space q.token)).0) [
        | inl none_ ↦ absurd (ground (arith, good, none_, e))
        | inr (chosen, given) ↦
            let go : create_token c (some q) s
                ≡ insert_token c chosen name q.rate_limit_rpm (expiry c.in_days q.expires_in_days)
                    s =
              ground (arith, good, given) in
            record {
              stored =
                  insert_token-adds c chosen token name q.rate_limit_rpm
                    (expiry c.in_days q.expires_in_days) s (ap (λ r. r.0) (sym go) ∙ e)
                  ∙ ap (λ r. some r.1.tokens) (sym go);
            }
      ]
    ]

-- The token of an answer 201 is accepted from then on until its time ends, under a new id and with the
-- limit that was asked for.
pub create_token_accepted :
    {F : Type 0} (c : Call) (q : CreateTokenRequest) (s : Site F) (token : Text) (fails : Bool)
    (now : ℕ)
    → (create_token c (some q) s).0 ≡ (201, some token)
    → IsBefore now (expiry c.in_days q.expires_in_days)
    → (valid_token c.sha fails now token (create_token c (some q) s).1.tokens).0
      ≡ some (s.tokens.next_id, q.rate_limit_rpm)
create_token_accepted c q s token fails now e early =
    let issued = create_token-adds c q s token e in
    add_token-accepts c.sha c.now token (trim_space q.name) q.rate_limit_rpm
      (expiry c.in_days q.expires_in_days) s.tokens (create_token c (some q) s).1.tokens fails now
      issued.stored
      (is_live-IsBefore c.sha c.now token (trim_space q.name) q.rate_limit_rpm
        (expiry c.in_days q.expires_in_days) s.tokens.next_id now early)

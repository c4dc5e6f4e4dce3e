-- ===== src/Proxy/Rewrite/Laws.antt =====
-- The effect of the rewriting rules on a path.
use proxy_sentinel.Base.Affix.{
  has_prefix_split, has_prefix_cancel, text_eq_iff, replace_first_prefix,
}
use proxy_sentinel.Base.Text.{Text, bytes, has_prefix}
use proxy_sentinel.Base.{
  ℕ, ◌+◌, ◌≡◌, ◌≢◌, ◌↔◌, ◌⊎◌, inl, inr, refl, ◌∙◌, ap, true, false, List, [], ◌∷◌, ◌++◌, none, some,
  arith, nat_eq, list_eq, length-append, All, Bool-cases, length,
}
use proxy_sentinel.Storage.{WeightedBackend, RewriteRule}
use proxy_sentinel.Proxy.Rules.{known_urls}
use proxy_sentinel.Proxy.Rules.Validity.{is_known-listed}
use proxy_sentinel.Proxy.Balancer.Health.{listed}
use proxy_sentinel.Proxy.Rewrite.{
  check_rewrite, check_rewrites, validate_rewrites, rewrite_hits, apply_rules, apply_rewrite,
}
use mathlib.Core.List.{append-nil, append_assoc}

-- A rest that begins at a segment boundary: nothing, or "/" and what follows.
abbrev pub AtBoundary : Text → Type 0
AtBoundary rest = (rest ≡ []) ⊎ ((more : Text) × (rest ≡ b'/' ∷ more))

-- Whether a rule is meant for a backend.
abbrev pub Concerns : RewriteRule → Text → Type 0
Concerns r backend = (r.backend ≡ []) ⊎ (r.backend ≡ backend)

rewrite_hits-split :
    (path backend : Text) (r : RewriteRule)
    → rewrite_hits path backend r ≡ true
    → (rest : Text) × (path ≡ r.prefix ++ rest) × AtBoundary rest × Concerns r backend
unfolding rewrite_hits
rewrite_hits-split path backend r h =
    let both = hits_parts path backend r h in
    elim both.1 [
      | inl e ↦ ([], rw (append-nil r.prefix) e, inl refl, both.0)
      | inr p ↦
          let (more, e) = has_prefix_split (r.prefix ++ bytes "/") path p in
          (b'/' ∷ more, e ∙ append_assoc r.prefix (bytes "/") more, inr (more, refl), both.0)
    ]
  where
    hits_parts :
        (path backend : Text) (r : RewriteRule)
        → rewrite_hits path backend r ≡ true
        → Concerns r backend
          × ((path ≡ r.prefix) ⊎ (has_prefix (r.prefix ++ bytes "/") path ≡ true))
    hits_parts path backend r h = ground (
      arith,
      h,
      text_eq_iff r.backend [],
      text_eq_iff r.backend backend,
      text_eq_iff path r.prefix,
    )

slash_hits : (p more : Text) → has_prefix (p ++ bytes "/") (p ++ b'/' ∷ more) ≡ true
slash_hits p more = has_prefix_cancel p (bytes "/") (b'/' ∷ more) ∙ (unfold has_prefix in refl)

boundary-hits :
    (backend rest : Text) (r : RewriteRule)
    → AtBoundary rest
    → Concerns r backend
    → rewrite_hits (r.prefix ++ rest) backend r ≡ true
unfolding rewrite_hits
boundary-hits backend rest r (inl e) c = ground (
  arith,
  text_eq_iff r.backend [],
  text_eq_iff r.backend backend,
  text_eq_iff (r.prefix ++ rest) r.prefix,
  append-nil r.prefix,
)
boundary-hits backend rest r (inr (more, e)) c =
    ground
      (arith, text_eq_iff r.backend [], text_eq_iff r.backend backend, slash_hits r.prefix more)

-- A rule rewrites a path exactly when the path is the rule's prefix followed by a rest that begins at a
-- segment boundary, and the rule concerns the backend.
rewrite_hits_iff :
    (path backend : Text) (r : RewriteRule)
    → (rewrite_hits path backend r ≡ true)
      ↔ ((rest : Text) × (path ≡ r.prefix ++ rest) × AtBoundary rest × Concerns r backend)
rewrite_hits_iff path backend r =
    (rewrite_hits-split path backend r, λ (rest, e, b, c). rw e (boundary-hits backend rest r b c))

-- The first rule that hits, at a path made of its prefix and a rest at a segment boundary, puts its
-- replacement in the place of that one prefix; the rules behind it are not applied to the result.
pub apply_rewrite_first :
    (backend rest : Text) (before : List RewriteRule) (r : RewriteRule) (after : List RewriteRule)
    → All (λ x. rewrite_hits (r.prefix ++ rest) backend x ≡ false) before
    → AtBoundary rest
    → Concerns r backend
    → apply_rewrite (some (before ++ r ∷ after)) (r.prefix ++ rest) backend ≡ r.replacement ++ rest
unfolding apply_rewrite apply_rules
apply_rewrite_first backend rest [] r after misses b c =
    ground
      (arith, boundary-hits backend rest r b c, replace_first_prefix r.prefix r.replacement rest)
apply_rewrite_first backend rest (x ∷ before) r after (miss, misses) b c =
    ground (arith, miss, apply_rewrite_first backend rest before r after misses b c)

-- A path that no rule fits is left as it is.
apply_rules_miss :
    (path backend : Text) (rules : List RewriteRule)
    → All (λ x. rewrite_hits path backend x ≡ false) rules
    → apply_rules path backend rules ≡ path
unfolding apply_rules
apply_rules_miss path backend [] h = refl
apply_rules_miss path backend (r ∷ rules) (miss, h) =
    ground (arith, miss, apply_rules_miss path backend rules h)

not_longer : (p more : Text) (c : ℕ) → p ++ c ∷ more ≢ p
not_longer p more c e = omega (arith, ap length e, length-append p (c ∷ more))

inside_misses :
    (backend : Text) (r : RewriteRule) (c : ℕ) (more : Text)
    → c ≢ b'/'
    → rewrite_hits (r.prefix ++ c ∷ more) backend r ≡ false
unfolding rewrite_hits
inside_misses backend r c more h = ground (
  arith,
  text_eq_iff (r.prefix ++ c ∷ more) r.prefix,
  not_longer r.prefix more c,
  has_prefix_cancel r.prefix (bytes "/") (c ∷ more),
  slash_prefix c more h,
)
  where
    slash_prefix : (c : ℕ) (more : Text) → c ≢ b'/' → has_prefix (bytes "/") (c ∷ more) ≡ false
    slash_prefix c more h = unfold has_prefix in ground (arith, h)

-- A prefix that ends inside a segment does not fit: behind the prefix stands a byte other than "/".
inside_segment_misses :
    (backend : Text) (r : RewriteRule) (c : ℕ) (more : Text)
    → c ≢ b'/'
    → apply_rewrite (some (r ∷ [])) (r.prefix ++ c ∷ more) backend ≡ r.prefix ++ c ∷ more
unfolding apply_rewrite
inside_segment_misses backend r c more h =
    apply_rules_miss (r.prefix ++ c ∷ more) backend (r ∷ []) (inside_misses backend r c more h, tt)

-- A rule that validation accepts: the prefix starts with "/" and is longer than that, the replacement
-- is empty or starts with "/", and the backend is empty or configured.
abbrev pub IsRewrite : List WeightedBackend → RewriteRule → Type 0
IsRewrite bs r =
    (has_prefix (bytes "/") r.prefix ≡ true)
    × (r.prefix ≢ bytes "/")
    × ((r.replacement ≡ []) ⊎ (has_prefix (bytes "/") r.replacement ≡ true))
    × ((r.backend ≡ []) ⊎ (listed r.backend bs ≡ true))

check_rewrite-IsRewrite :
    (bs : List WeightedBackend) (r : RewriteRule)
    → (check_rewrite (known_urls [] bs) r ≡ none) ↔ IsRewrite bs r
unfolding check_rewrite
check_rewrite-IsRewrite bs r = (
  λ h. ground (
    arith,
    text_eq_iff r.prefix (bytes "/"),
    text_eq_iff r.replacement [],
    text_eq_iff r.backend [],
    is_known-listed r.backend bs,
  ),
  λ h. ground (
    arith,
    text_eq_iff r.prefix (bytes "/"),
    text_eq_iff r.replacement [],
    text_eq_iff r.backend [],
    is_known-listed r.backend bs,
  ),
)

check_rewrites-none :
    (bs : List WeightedBackend) (i : ℕ) (rules : List RewriteRule)
    → (check_rewrites (known_urls [] bs) i rules ≡ none) ↔ All (IsRewrite bs) rules
unfolding check_rewrites
check_rewrites-none bs i [] = (λ h. tt, λ h. refl)
check_rewrites-none bs i (r ∷ rules) = (
  λ h. (
    (check_rewrite-IsRewrite bs r).0 (ground (arith, h)),
    (check_rewrites-none bs (i + 1) rules).0 (ground (arith, h)),
  ),
  λ (h, hs).
      ground
        (arith, (check_rewrite-IsRewrite bs r).1 h, (check_rewrites-none bs (i + 1) rules).1 hs),
)

-- Validation accepts a list of rewriting rules exactly when every rule is well formed.
validate_rewrites_iff :
    (rules : List RewriteRule) (bs : List WeightedBackend)
    → (validate_rewrites rules bs ≡ none) ↔ All (IsRewrite bs) rules
unfolding validate_rewrites
validate_rewrites_iff rules bs = check_rewrites-none bs 0 rules

-- The empty path, or one that starts with "/".
abbrev pub IsRooted : Text → Type 0
IsRooted path = (path ≡ []) ⊎ (has_prefix (bytes "/") path ≡ true)

IsRooted-append :
    (s rest : Text)
    → (s ≡ []) ⊎ (has_prefix (bytes "/") s ≡ true)
    → AtBoundary rest
    → IsRooted (s ++ rest)
unfolding has_prefix
IsRooted-append [] rest h (inl e) = inl e
IsRooted-append [] rest h (inr (more, e)) = inr (ground (arith, e))
IsRooted-append (c ∷ s) rest h b = inr (ground (arith, h))

apply_rules-IsRooted :
    (rules : List RewriteRule) (bs : List WeightedBackend) (path backend : Text)
    → All (IsRewrite bs) rules
    → IsRooted path
    → IsRooted (apply_rules path backend rules)
unfolding apply_rules
apply_rules-IsRooted [] bs path backend h root = root
apply_rules-IsRooted (r ∷ rules) bs path backend (ok, oks) root =
    elim (Bool-cases (rewrite_hits path backend r)) [
      | inr miss ↦ rw miss (apply_rules-IsRooted rules bs path backend oks root)
      | inl hit ↦
          let (rest, e, b, _) = rewrite_hits-split path backend r hit in
          rw (hit, e, replace_first_prefix r.prefix r.replacement rest)
            (IsRooted-append r.replacement rest ok.2 b)
    ]

-- Validated rules turn an empty or rooted path into an empty or rooted path.
apply_rewrite-IsRooted :
    (rules : List RewriteRule) (bs : List WeightedBackend) (path backend : Text)
    → validate_rewrites rules bs ≡ none
    → IsRooted path
    → IsRooted (apply_rewrite (some rules) path backend)
unfolding apply_rewrite
apply_rewrite-IsRooted rules bs path backend valid root =
    apply_rules-IsRooted rules bs path backend ((validate_rewrites_iff rules bs).0 valid) root

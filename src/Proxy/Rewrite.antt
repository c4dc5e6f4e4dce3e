-- ===== src/Proxy/Rewrite.antt =====
-- Path rewriting: internal/proxy/rewrite.go.
pub mod Laws
use proxy_sentinel.Base.Text.{Text, bytes, has_prefix, replace_first}
use proxy_sentinel.Base.{
  ℕ, suc, ◌+◌, Bool, true, false, not, ◌&&◌, ◌||◌, ◌++◌, List, [], ◌∷◌, Option, none, some, ◌==◌,
  nat_eq, list_eq, if◌then◌else◌,
}
use proxy_sentinel.Storage.{WeightedBackend, RewriteRule}
use proxy_sentinel.Proxy.Rules.{known_urls, is_known}

pub data RewriteFault : Type 0 where
  bad_prefix bad_replacement unknown_backend : RewriteFault

pub record RewriteError : Type 0 where
  pub position : ℕ
  pub fault : RewriteFault

unfoldable pub check_rewrite : List (Text × Bool) → RewriteRule → Option RewriteFault
check_rewrite m r =
    if not (has_prefix (bytes "/") r.prefix) || r.prefix == bytes "/"
    then some bad_prefix
    else if not (r.replacement == []) && not (has_prefix (bytes "/") r.replacement)
    then some bad_replacement
    else if not (r.backend == []) && not (is_known m r.backend)
    then some unknown_backend
    else none

unfoldable pub check_rewrites : List (Text × Bool) → ℕ → List RewriteRule → Option RewriteError
check_rewrites m i [] = none
check_rewrites m i (r ∷ rs) =
    let rest = check_rewrites m (i + 1) rs in
    elim (check_rewrite m r) [
      | none ↦ rest
      | some f ↦ some (record { position = i + 1; fault = f })
    ]

-- `none` is the nil error.
unfoldable pub validate_rewrites : List RewriteRule → List WeightedBackend → Option RewriteError
validate_rewrites rules backends = check_rewrites (known_urls [] backends) 0 rules

-- Whether the loop of `Apply` stops at a rule.
unfoldable pub rewrite_hits : Text → Text → RewriteRule → Bool
rewrite_hits path backend r =
    if not (r.backend == []) && not (r.backend == backend)
    then false
    else path == r.prefix || has_prefix (r.prefix ++ bytes "/") path

unfoldable pub apply_rules : Text → Text → List RewriteRule → Text
apply_rules path backend [] = path
apply_rules path backend (r ∷ rs) =
    let rest = apply_rules path backend rs in
    if rewrite_hits path backend r then replace_first r.prefix r.replacement path else rest

-- `Apply`; a nil rewriter leaves the path.
unfoldable pub apply_rewrite : Option (List RewriteRule) → Text → Text → Text
apply_rewrite none path backend = path
apply_rewrite (some rules) path backend = apply_rules path backend rules

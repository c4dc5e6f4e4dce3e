-- ===== src/Proxy/Paths.antt =====
-- joinURLPath of internal/proxy/handler.go: a backend's own path and the forwarded path.
use proxy_sentinel.Base.Affix.{text_eq_iff, trim_suffix_self, trim_prefix_self}
use proxy_sentinel.Base.Text.{Text, bytes, trim_prefix, trim_suffix}
use proxy_sentinel.Base.{
  ◌≡◌, ◌≢◌, ◌⊎◌, inl, inr, refl, ◌∙◌, ap, sym, ◌||◌, [], ◌∷◌, ◌++◌, arith, ◌==◌, nat_eq, list_eq,
  if◌then◌else◌, Bool-cases, length, length-append,
}

unfoldable pub join_url_path : Text → Text → Text
join_url_path base fwd =
    let path = if fwd == [] then bytes "/" else fwd in
    if base == [] || base == bytes "/"
    then path
    else trim_suffix (bytes "/") base ++ (bytes "/" ++ trim_prefix (bytes "/") path)

-- A base with or without one "/" at its end.
abbrev SlashAfter : Text → Text → Type 0
SlashAfter base b = (b ≡ base) ⊎ (b ≡ base ++ bytes "/")

-- A path with or without one "/" at its front.
abbrev SlashBefore : Text → Text → Type 0
SlashBefore path f = (f ≡ path) ⊎ (f ≡ b'/' ∷ path)

base_ne : (base : Text) → base ≢ [] → base ++ bytes "/" ≢ bytes "/"
base_ne [] h e = absurd (h refl)
base_ne (c ∷ base) h e = omega (arith, ap length e, length-append base (bytes "/"))

base_ne_nil : (base : Text) → base ++ bytes "/" ≢ []
base_ne_nil base e = omega (arith, ap length e, length-append base (bytes "/"))

trimmed_base :
    (base b : Text)
    → trim_suffix (bytes "/") base ≡ base
    → SlashAfter base b
    → trim_suffix (bytes "/") b ≡ base
trimmed_base base b h (inl e) = ap (trim_suffix (bytes "/")) e ∙ h
trimmed_base base b h (inr e) = ap (trim_suffix (bytes "/")) e ∙ trim_suffix_self base (bytes "/")

trimmed_path :
    (path f : Text)
    → trim_prefix (bytes "/") path ≡ path
    → SlashBefore path f
    → trim_prefix (bytes "/") (if f == [] then bytes "/" else f) ≡ path
trimmed_path path f h (inl e) = elim (Bool-cases (f == [])) [
  | inl empty ↦ rw empty (trim_prefix_self (bytes "/") [] ∙ sym ((text_eq_iff f []).0 empty) ∙ e)
  | inr full ↦ rw full (ap (trim_prefix (bytes "/")) e ∙ h)
]
trimmed_path path f h (inr e) = elim (Bool-cases (f == [])) [
  | inl empty ↦ absurd (ground (arith, e, (text_eq_iff f []).0 empty))
  | inr full ↦ rw full (ap (trim_prefix (bytes "/")) e ∙ trim_prefix_self (bytes "/") path)
]

-- Exactly one "/" joins a base that is not empty and not "/" to a path, whether or not the base has a
-- "/" of its own at its end and the path one at its front.
join_url_path_slash :
    (base path b f : Text)
    → base ≢ []
    → base ≢ bytes "/"
    → trim_suffix (bytes "/") base ≡ base
    → trim_prefix (bytes "/") path ≡ path
    → SlashAfter base b
    → SlashBefore path f
    → join_url_path b f ≡ base ++ b'/' ∷ path
unfolding join_url_path
join_url_path_slash base path b f full root trimmed bare after before = ground (
  arith,
  text_eq_iff b [],
  text_eq_iff b (bytes "/"),
  base_ne base full,
  base_ne_nil base,
  trimmed_base base b trimmed after,
  trimmed_path path f bare before,
)

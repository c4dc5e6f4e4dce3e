-- ===== src/Base/Affix.antt =====
-- Laws of prefixes, suffixes and replacement.
use mathlib.Core.List.{append-nil, reverse-append, reverse-reverse}
use proxy_sentinel.Base.Text.{Text, has_prefix, trim_prefix, trim_suffix, replace_first}
use proxy_sentinel.Base.Tests.{◌==◌, nat_eq, list_eq, eq_test_refl}
use proxy_sentinel.Base.Lists.{length, drop}
use mathlib.Core.Path.{◌≡◌, refl, ap, ◌∙◌, sym}
use mathlib.Core.Logic.{◌↔◌}
use mathlib.Core.Bool.{true}
use mathlib.Core.List.{[], ◌∷◌, ◌++◌, reverse}
use native.Mathlib.Omega.{arith}

pub has_prefix-append : (p s : Text) → has_prefix p (p ++ s) ≡ true
unfolding has_prefix
has_prefix-append [] s = refl
has_prefix-append (c ∷ p) s = ground (arith, eq_test_refl c, has_prefix-append p s)

pub drop-append : (p s : Text) → drop (length p) (p ++ s) ≡ s
drop-append [] s = refl
drop-append (c ∷ p) s = drop-append p s

pub has_prefix_split : (p s : Text) → has_prefix p s ≡ true → (rest : Text) × (s ≡ p ++ rest)
unfolding has_prefix
has_prefix_split [] s h = (s, refl)
has_prefix_split (c ∷ p) [] h = cc
has_prefix_split (c ∷ p) (d ∷ s) h =
    let (rest, e) = has_prefix_split p s (ground (arith, h)) in (rest, ground (arith, h, e))

-- Past a common front only the rests matter.
pub has_prefix_cancel : (p q s : Text) → has_prefix (p ++ q) (p ++ s) ≡ has_prefix q s
unfolding has_prefix
has_prefix_cancel [] q s = refl
has_prefix_cancel (c ∷ p) q s = ground (arith, has_prefix_cancel p q s)

pub replace_first_prefix : (old new rest : Text) → replace_first old new (old ++ rest) ≡ new ++ rest
unfolding replace_first
replace_first_prefix [] new [] = sym (append-nil new)
replace_first_prefix [] new (c ∷ rest) = refl
replace_first_prefix (c ∷ old) new rest =
    rw (has_prefix-append (c ∷ old) rest, drop-append old rest)

pub trim_prefix_self : (p s : Text) → trim_prefix p (p ++ s) ≡ s
unfolding trim_prefix
trim_prefix_self p s = rw (has_prefix-append p s, drop-append p s)

pub trim_suffix_self : (s p : Text) → trim_suffix p (s ++ p) ≡ s
unfolding trim_suffix
trim_suffix_self s p =
    ap (λ t. reverse (trim_prefix (reverse p) t)) (reverse-append s p)
    ∙ ap reverse (trim_prefix_self (reverse p) (reverse s))
    ∙ reverse-reverse s

-- The equality test of texts, at a pair of texts.
pub text_eq_iff : (s t : Text) → ((s == t) ≡ true) ↔ (s ≡ t)
text_eq_iff s t = list_eq.test_iff s t

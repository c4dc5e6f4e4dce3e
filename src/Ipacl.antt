-- ===== src/Ipacl.antt =====
-- The IP lists of internal/ipacl/ipacl.go: compiling a configuration and deciding on an address.
-- netip.ParseAddr and netip.ParsePrefix are in `Parser`.
pub mod Semantics
pub mod Parse
use proxy_sentinel.Base.Map
use proxy_sentinel.Base.Text.{Text, bytes, trim_space}
use proxy_sentinel.Base.{
  ℕ, suc, ◌+◌, Bool, true, false, not, ◌&&◌, ◌||◌, List, [], ◌∷◌, ◌++◌, Option, none, some, ◌==◌,
  nat_eq, list_eq, if◌then◌else◌, any, length,
}
use proxy_sentinel.Net.Ip.{Addr, Prefix, addr_eq, is4, unmap, as_mapped, masked, covers}

pub record Entry : Type 0 where
  pub value : Text
  pub note : Text

pub record Config : Type 0 where
  pub mode : Text
  pub default : Text
  pub blacklist : List Entry
  pub whitelist : List Entry

pub record Parser : Type 0 where
  pub parse_addr : Text → Option Addr
  pub parse_prefix : Text → Option Prefix

-- One compiled list. `exact` is a set.
pub record Rules : Type 0 where
  pub exact : List Addr
  pub prefix4 : List Prefix
  pub prefix6 : List Prefix

-- The compiled `List`.
pub record Acl : Type 0 where
  pub mode : Text
  pub default : Text
  pub black : Rules
  pub white : Rules

pub data EntryFault : Type 0 where
  empty duplicate bad_cidr bad_addr : EntryFault

-- The errors of `Compile`; `black` tells which list an entry is of, and positions count from 1.
pub data AclError : Type 0 where
  bad_mode bad_default empty_whitelist : AclError
  bad_entry : Bool → ℕ → EntryFault → AclError

pub data Result {ℓ} (A : Type ℓ) : Type ℓ where
  ok : A → Result A
  err : AclError → Result A

infixl 5 ◌>>=◌
abbrev pub ◌>>=◌ {ℓ κ} : {A : Type ℓ} {B : Type κ} → Result A → (A → Result B) → Result B
ok a >>= f = f a
err e >>= f = err e

-- strings.Contains(v, "/")
unfoldable pub has_slash : Text → Bool
has_slash v = any (λ c. c == b'/') v

unfoldable pub add_prefix : Prefix → Rules → Rules
add_prefix p r =
    if is4 p.addr
    then record r { prefix4 = r.prefix4 ++ p ∷ [] }
    else record r { prefix6 = r.prefix6 ++ p ∷ [] }

-- One entry, with its surrounding space removed.
unfoldable pub compile_value : Parser → Text → Rules → Option EntryFault × Rules
compile_value ps v r =
    if has_slash v
    then elim (ps.parse_prefix v) [
      | none ↦ (some bad_cidr, r)
      | some p ↦ (none, add_prefix (masked p) r)
    ]
    else elim (ps.parse_addr v) [
      | none ↦ (some bad_addr, r)
      | some a ↦ (none, record r { exact = unmap a ∷ r.exact })
    ]

unfoldable pub compile_from :
    Parser → Bool → ℕ → List (Text × Bool) → Rules → List Entry → Result Rules
compile_from ps black i seen r [] = ok r
compile_from ps black i seen r (e ∷ es) =
    let v = trim_space e.value in
    let (fault, r') = compile_value ps v r in
    let rest = compile_from ps black (i + 1) (Map.insert v true seen) r' es in
    if v == [] then err (bad_entry black (i + 1) empty) else elim (Map.lookup v seen) [
      | some dup ↦ err (bad_entry black (i + 1) duplicate)
      | none ↦ elim fault [ some f ↦ err (bad_entry black (i + 1) f) | none ↦ rest ]
    ]

abbrev pub no_rules : Rules
no_rules = record { exact = []; prefix4 = []; prefix6 = [] }

unfoldable pub compile_rules : Parser → List Entry → Bool → Result Rules
compile_rules ps entries black = compile_from ps black 0 [] no_rules entries

unfoldable pub check_mode : Text → Result (Unit {0})
check_mode m = if m == bytes "off" || m == bytes "on" then ok tt else err bad_mode

unfoldable pub check_default : Text → Result Text
check_default d =
    if d == []
    then ok (bytes "allow")
    else if d == bytes "allow" || d == bytes "deny"
    then ok d
    else err bad_default

is_empty : List Entry → Bool
is_empty [] = true
is_empty (e ∷ es) = false

-- The guard against a configuration that refuses every request.
unfoldable pub check_whitelist : Text → Text → List Entry → Result (Unit {0})
unfolding is_empty
check_whitelist mode default whitelist =
    if mode == bytes "on" && default == bytes "deny" && is_empty whitelist
    then err empty_whitelist
    else ok tt

unfoldable pub compile : Parser → Config → Result Acl
compile ps cfg = do
  _ ← check_mode cfg.mode
  default ← check_default cfg.default
  black ← compile_rules ps cfg.blacklist true
  white ← compile_rules ps cfg.whitelist false
  _ ← check_whitelist cfg.mode default cfg.whitelist
  ok (record { mode = cfg.mode; default = default; black = black; white = white })

unfoldable pub contains_addr : Rules → Addr → Bool
contains_addr r a =
    if any (λ x. x == a) r.exact
    then true
    else if is4 a
    then (if any (λ p. covers p a) r.prefix4
        then true
        else any (λ p. covers p (as_mapped a)) r.prefix6)
    else any (λ p. covers p a) r.prefix6

unfoldable pub contains : Parser → Rules → Text → Bool
contains ps r ip = elim (ps.parse_addr (trim_space ip)) [
  | none ↦ false
  | some a ↦ contains_addr r (unmap a)
]

unfoldable pub allowed : Parser → Acl → Text → Bool
allowed ps l ip =
    if not (l.mode == bytes "on")
    then true
    else if contains ps l.black ip
    then false
    else if contains ps l.white ip
    then true
    else l.default == bytes "allow"

-- ===== src/Ipacl/Semantics.antt =====
-- The compiled lists decide as the entries of the configuration say.
use proxy_sentinel.Base.Affix.{text_eq_iff}
use proxy_sentinel.Base.Map
use proxy_sentinel.Base.Text.{Text, bytes, trim_space}
use proxy_sentinel.Base.{
  ℕ, ◌+◌, ◌*◌, ◌^◌, ◌<◌, ◌≡◌, ◌≢◌, inl, inr, refl, Bool, true, false, not, ◌||◌, List, [], ◌∷◌,
  ◌++◌, none, some, ◌==◌, nat_eq, list_eq, list_beq, if◌then◌else◌, any, arith, Bool-cases,
  Option-cases, eq_test_refl,
}
use proxy_sentinel.Net.Ip.{Addr, v4, v6, Prefix, addr_eq, is4, unmap, as_mapped, masked, covers}
use proxy_sentinel.Ipacl.{
  Entry, Config, Parser, Rules, Acl, ok, has_slash, add_prefix, compile_value, compile_from,
  no_rules, compile_rules, check_default, check_whitelist, compile, contains_addr, contains,
  allowed, is_empty,
}

-- What one entry says of an address that is not an IPv4-mapped one: an IPv4 network covers it, or an
-- IPv6 network covers it or its mapped form, or the entry is that address.
unfoldable pub value_covers : Parser → Addr → Text → Bool
value_covers ps a v =
    if has_slash v
    then elim (ps.parse_prefix v) [
      | none ↦ false
      | some p ↦
          if is4 (masked p).addr
          then covers (masked p) a
          else covers (masked p) (if is4 a then as_mapped a else a)
    ]
    else elim (ps.parse_addr v) [ none ↦ false | some x ↦ unmap x == a ]

abbrev entry_covers : Parser → Addr → Entry → Bool
entry_covers ps a e = value_covers ps a (trim_space e.value)

-- Whether an address text is in a list of entries; a text that is no address is in none.
unfoldable pub in_list : Parser → List Entry → Text → Bool
in_list ps es ip = elim (ps.parse_addr (trim_space ip)) [
  | none ↦ false
  | some a ↦ any (entry_covers ps (unmap a)) es
]

any-append :
    (f : Prefix → Bool) (xs : List Prefix) (x : Prefix) → any f (xs ++ x ∷ []) ≡ (any f xs || f x)
any-append f [] x = ground arith
any-append f (y ∷ xs) x = ground (arith, any-append f xs x)

covers_family : (p : Prefix) (a : Addr) → is4 p.addr ≡ true → is4 a ≡ false → covers p a ≡ false
unfolding covers is4
covers_family p a p4 a6 = ground arith

add_prefix_lem :
    (p : Prefix) (r : Rules) (a : Addr)
    → contains_addr (add_prefix p r) a ≡ (
        contains_addr r a
        || (if is4 p.addr then covers p a else covers p (if is4 a then as_mapped a else a)))
unfolding contains_addr add_prefix
add_prefix_lem p r a = ground (
  arith,
  any-append (λ q. covers q a) r.prefix4 p,
  any-append (λ q. covers q a) r.prefix6 p,
  any-append (λ q. covers q (as_mapped a)) r.prefix6 p,
  covers_family p a,
)

exact_lem :
    (x a : Addr) (r : Rules)
    → contains_addr (record r { exact = x ∷ r.exact }) a ≡ (contains_addr r a || x == a)
unfolding contains_addr
exact_lem x a r = ground arith

compile_value_lem :
    (ps : Parser) (v : Text) (r : Rules) (a : Addr)
    → (compile_value ps v r).0 ≡ none
    → contains_addr (compile_value ps v r).1 a ≡ (contains_addr r a || value_covers ps a v)
unfolding compile_value value_covers
compile_value_lem ps v r a good = elim (Bool-cases (has_slash v)) [
  | inl net ↦ elim (Option-cases (ps.parse_prefix v)) [
    | inl e ↦ absurd (ground (arith, net, e, good))
    | inr (p, e) ↦ ground (arith, net, e, add_prefix_lem (masked p) r a)
  ]
  | inr single ↦ elim (Option-cases (ps.parse_addr v)) [
    | inl e ↦ absurd (ground (arith, single, e, good))
    | inr (x, e) ↦ ground (arith, single, e, exact_lem (unmap x) a r)
  ]
]

compile_from_lem :
    (ps : Parser) (black : Bool) (i : ℕ) (seen : List (Text × Bool)) (r : Rules) (es : List Entry)
    (r' : Rules) (a : Addr)
    → compile_from ps black i seen r es ≡ ok r'
    → contains_addr r' a ≡ (contains_addr r a || any (entry_covers ps a) es)
unfolding compile_from
compile_from_lem ps black i seen r [] r' a e = ground (arith, e)
compile_from_lem ps black i seen r (x ∷ es) r' a e =
    let v = trim_space x.value in
    ground (
      arith,
      e,
      compile_value_lem ps v r a,
      compile_from_lem ps black (i + 1) (Map.insert v true seen) (compile_value ps v r).1 es r' a,
    )

compile_rules_lem :
    (ps : Parser) (es : List Entry) (black : Bool) (r : Rules) (ip : Text)
    → compile_rules ps es black ≡ ok r
    → contains ps r ip ≡ in_list ps es ip
unfolding compile_rules contains in_list
compile_rules_lem ps es black r ip e = elim (Option-cases (ps.parse_addr (trim_space ip))) [
  | inl none_read ↦ ground (arith, none_read)
  | inr (a, read) ↦
      ground
        (arith, read, compile_from_lem ps black 0 [] no_rules es r (unmap a) e, nothing (unmap a))
]
  where
    nothing : (a : Addr) → contains_addr no_rules a ≡ false
    nothing a = unfold contains_addr in ground arith

-- What the configuration means for an address text: without the mode "on" it is let through; the
-- blacklist refuses it, else the whitelist lets it through, else the default decides.
unfoldable pub decision : Parser → Config → Text → Bool
decision ps cfg ip =
    if not (cfg.mode == bytes "on")
    then true
    else if in_list ps cfg.blacklist ip
    then false
    else if in_list ps cfg.whitelist ip
    then true
    else (cfg.default == [] || cfg.default == bytes "allow")

check_default_lem :
    (d d' : Text)
    → check_default d ≡ ok d'
    → (d' == bytes "allow") ≡ (d == [] || d == bytes "allow")
unfolding check_default
check_default_lem d d' e = ground (arith, e, eq_test_refl (bytes "allow"))

compile_parts :
    (ps : Parser) (cfg : Config) (l : Acl)
    → compile ps cfg ≡ ok l
    → (check_default cfg.default ≡ ok l.default)
      × (compile_rules ps cfg.blacklist true ≡ ok l.black)
      × (compile_rules ps cfg.whitelist false ≡ ok l.white)
      × (l.mode ≡ cfg.mode)
      × (check_whitelist cfg.mode l.default cfg.whitelist ≡ ok tt)
unfolding compile
compile_parts ps cfg l e = ground arith

-- A compiled configuration decides on every address text as its entries say.
pub compile-decision :
    (ps : Parser) (cfg : Config) (l : Acl) (ip : Text)
    → compile ps cfg ≡ ok l
    → allowed ps l ip ≡ decision ps cfg ip
unfolding allowed decision
compile-decision ps cfg l ip e =
    let (default, black, white, mode, _) = compile_parts ps cfg l e in
    ground (
      arith,
      mode,
      compile_rules_lem ps cfg.blacklist true l.black ip black,
      compile_rules_lem ps cfg.whitelist false l.white ip white,
      check_default_lem cfg.default l.default default,
    )

nonempty_of : (es : List Entry) → is_empty es ≡ false → es ≢ []
nonempty_of [] h e = unfold is_empty in cc
nonempty_of (x ∷ es) h e = cc

-- A configuration that compiles with mode "on" and default "deny" has a whitelist entry.
compile-whitelist :
    (ps : Parser) (cfg : Config) (l : Acl)
    → compile ps cfg ≡ ok l
    → cfg.mode ≡ bytes "on"
    → cfg.default ≡ bytes "deny"
    → cfg.whitelist ≢ []
compile-whitelist ps cfg l e on deny =
    let (default, _, _, _, guard) = compile_parts ps cfg l e in
    nonempty_of cfg.whitelist
      (guard_lem cfg.mode cfg.default l.default cfg.whitelist default guard on deny)
  where
    deny_kept : (d d' : Text) → check_default d ≡ ok d' → d ≡ bytes "deny" → d' ≡ bytes "deny"
    deny_kept d d' h e = ground (arith, rw e at h, deny_is_deny)
      where
        deny_is_deny : check_default (bytes "deny") ≡ ok (bytes "deny")
        deny_is_deny = unfold check_default list_beq in refl

    guard_lem :
        (m d d' : Text) (es : List Entry)
        → check_default d ≡ ok d'
        → check_whitelist m d' es ≡ ok tt
        → m ≡ bytes "on"
        → d ≡ bytes "deny"
        → is_empty es ≡ false
    guard_lem m d d' es h g on deny =
        unfold check_whitelist in
        ground (
          arith,
          g,
          (text_eq_iff m (bytes "on")).1 on,
          (text_eq_iff d' (bytes "deny")).1 (deny_kept d d' h deny),
        )

unmap_lem :
    (n : ℕ) (zone : Text) → n < 2 ^ 32 → unmap (v4 n) ≡ unmap (v6 (0xffff * 2 ^ 32 + n) zone)
unfolding unmap
unmap_lem n zone small = ground arith

-- Two spellings of one IPv4 address, the plain one and the IPv4-mapped IPv6 one, are decided alike.
allowed-unmap :
    (ps : Parser) (l : Acl) (plain mapped zone : Text) (n : ℕ)
    → n < 2 ^ 32
    → ps.parse_addr (trim_space plain) ≡ some (v4 n)
    → ps.parse_addr (trim_space mapped) ≡ some (v6 (0xffff * 2 ^ 32 + n) zone)
    → allowed ps l plain ≡ allowed ps l mapped
allowed-unmap ps l plain mapped zone n small e f = unfold allowed in rw (same l.black, same l.white)
  where
    same : (r : Rules) → contains ps r plain ≡ contains ps r mapped
    same r = unfold contains in ground (arith, e, f, unmap_lem n zone small)

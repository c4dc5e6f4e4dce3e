-- ===== src/Api/Settings/Stored.antt =====
-- What the settings table says after the four writes of updateBackends.
use proxy_sentinel.Base.Affix.{text_eq_iff}
use proxy_sentinel.Base.Text.{Text}
use proxy_sentinel.Base.{
  ◌≡◌, ◌∙◌, sym, ap, refl, inl, inr, Bool, true, false, List, Option, none, some, arith, ◌==◌,
  nat_eq, list_eq, list_beq, Bool-cases, Option-cases,
}
use proxy_sentinel.Storage.{WeightedBackend, RouteRule, RewriteRule}
use proxy_sentinel.Storage.Settings.{
  Table, Codec, IsCodec, Read, found, get_setting, set_setting, get-set, decode_backends,
  get_setting_backends, set_setting_backends, get_setting_rules, set_setting_rules,
  get_setting_rewrites, set_setting_rewrites, setting_backends, setting_strategy, setting_rules,
  setting_rewrites,
}
use proxy_sentinel.Api.Settings.{UpdateBackendsRequest, Call, store, store_rules, store_rewrites}

-- The other keys are as they were.
abbrev KeepsOthers : Text → Table → Table → Type 0
KeepsOthers key t t' =
    (other : Text) → (key == other) ≡ false → get_setting false other t' ≡ get_setting false other t

write_rest :
    (fails : Bool) (key val : Text) (t t' : Table)
    → set_setting fails key val t ≡ some t'
    → KeepsOthers key t t'
write_rest fails key val t t' e other apart =
    ground (arith, apart, get-set fails key other val t t' e)

write_own :
    (fails : Bool) (key val : Text) (t t' : Table)
    → set_setting fails key val t ≡ some t'
    → get_setting false key t' ≡ found val
write_own fails key val t t' e =
    ground (arith, text_eq_iff key key, get-set fails key key val t t' e)

set_backends_reads :
    (c : Codec) (fails : Bool) (bs : List WeightedBackend) (t t' : Table)
    → IsCodec c
    → set_setting_backends c fails bs t ≡ some t'
    → (get_setting_backends c false t' ≡ found bs) × KeepsOthers setting_backends t t'
unfolding set_setting_backends get_setting_backends decode_backends
set_backends_reads c fails bs t t' codec e = elim (Option-cases (c.marshal_backends bs)) [
  | inl bad ↦ absurd (ground (arith, bad, e))
  | inr (v, good) ↦
      let go : set_setting fails setting_backends v t ≡ some t' = ground (arith, good, e) in
      (
        ground (arith, write_own fails setting_backends v t t' go, codec.backends bs v good),
        write_rest fails setting_backends v t t' go,
      )
]

-- The rules of the request, or else those that are there.
abbrev pub given_or {ℓ} : {A : Type ℓ} → Option A → Read A → Read A
given_or none r = r
given_or (some a) r = found a

store_rules_reads :
    (c : Call) (rules : Option (List RouteRule)) (t t' : Table)
    → IsCodec c.codec
    → store_rules c rules t ≡ (true, t')
    → (get_setting_rules c.codec false t' ≡ given_or rules (get_setting_rules c.codec false t))
      × KeepsOthers setting_rules t t'
unfolding store_rules set_setting_rules
store_rules_reads c none t t' codec e =
    let same : t ≡ t' = ground (arith, e) in
    (
      ap (get_setting_rules c.codec false) (sym same),
      λ other apart. ap (get_setting false other) (sym same),
    )
store_rules_reads c (some rules) t t' codec e = elim (Option-cases (c.codec.marshal_rules rules)) [
  | inl bad ↦ absurd (ground (arith, bad, e))
  | inr (v, good) ↦
      let go : set_setting c.faults.rules setting_rules v t ≡ some t' = ground (arith, good, e) in
      (
        unfold get_setting_rules in
            ground
              (arith, write_own c.faults.rules setting_rules v t t' go, codec.rules rules v good),
        write_rest c.faults.rules setting_rules v t t' go,
      )
]

store_rewrites_reads :
    (c : Call) (rules : Option (List RewriteRule)) (t t' : Table)
    → IsCodec c.codec
    → store_rewrites c rules t ≡ (true, t')
    → (get_setting_rewrites c.codec false t'
        ≡ given_or rules (get_setting_rewrites c.codec false t))
      × KeepsOthers setting_rewrites t t'
unfolding store_rewrites set_setting_rewrites
store_rewrites_reads c none t t' codec e =
    let same : t ≡ t' = ground (arith, e) in
    (
      ap (get_setting_rewrites c.codec false) (sym same),
      λ other apart. ap (get_setting false other) (sym same),
    )
store_rewrites_reads c (some rules) t t' codec e =
    elim (Option-cases (c.codec.marshal_rewrites rules)) [
      | inl bad ↦ absurd (ground (arith, bad, e))
      | inr (v, good) ↦
          let go : set_setting c.faults.rewrites setting_rewrites v t ≡ some t' =
            ground (arith, good, e) in
          (
            unfold get_setting_rewrites in
                ground (
                  arith,
                  write_own c.faults.rewrites setting_rewrites v t t' go,
                  codec.rewrites rules v good,
                ),
            write_rest c.faults.rewrites setting_rewrites v t t' go,
          )
    ]

-- What the four keys say.
pub record IsStored (c : Call) (bs : List WeightedBackend) (strategy : Text)
    (q : UpdateBackendsRequest) (t t' : Table) : Type 0 where
  pub backends : get_setting_backends c.codec false t' ≡ found bs
  pub strategy_ : get_setting false setting_strategy t' ≡ found strategy
  pub rules :
      get_setting_rules c.codec false t' ≡ given_or q.rules (get_setting_rules c.codec false t)
  pub rewrites :
      get_setting_rewrites c.codec false t'
      ≡ given_or q.rewrites (get_setting_rewrites c.codec false t)

-- A reader of one key sees no write of another.
read_backends :
    (c : Codec) (key : Text) (t t' : Table)
    → KeepsOthers key t t'
    → (key == setting_backends) ≡ false
    → get_setting_backends c false t' ≡ get_setting_backends c false t
unfolding get_setting_backends
read_backends c key t t' kept apart = ground (arith, kept setting_backends apart)

read_rules :
    (c : Codec) (key : Text) (t t' : Table)
    → KeepsOthers key t t'
    → (key == setting_rules) ≡ false
    → get_setting_rules c false t' ≡ get_setting_rules c false t
unfolding get_setting_rules
read_rules c key t t' kept apart = ground (arith, kept setting_rules apart)

read_rewrites :
    (c : Codec) (key : Text) (t t' : Table)
    → KeepsOthers key t t'
    → (key == setting_rewrites) ≡ false
    → get_setting_rewrites c false t' ≡ get_setting_rewrites c false t
unfolding get_setting_rewrites
read_rewrites c key t t' kept apart = ground (arith, kept setting_rewrites apart)

-- The writes, one after another.
record Writes (c : Call) (bs : List WeightedBackend) (strategy : Text) (q : UpdateBackendsRequest)
    (t t' : Table) : Type 0 where
  first : Table
  second : Table
  third : Table
  backends : set_setting_backends c.codec c.faults.backends bs t ≡ some first
  strategy_ : set_setting c.faults.strategy setting_strategy strategy first ≡ some second
  rules : store_rules c q.rules second ≡ (true, third)
  rewrites : store_rewrites c q.rewrites third ≡ (true, t')

store-Writes :
    (c : Call) (bs : List WeightedBackend) (strategy : Text) (q : UpdateBackendsRequest)
    (t t' : Table)
    → store c bs strategy q t ≡ (true, t')
    → Writes c bs strategy q t t'
unfolding store
store-Writes c bs strategy q t t' e =
    elim (Option-cases (set_setting_backends c.codec c.faults.backends bs t)) [
      | inl bad ↦ absurd (ground (arith, bad, e))
      | inr (t1, one) ↦
          elim (Option-cases (set_setting c.faults.strategy setting_strategy strategy t1)) [
            | inl bad ↦ absurd (ground (arith, one, bad, e))
            | inr (t2, two) ↦ elim (Bool-cases (store_rules c q.rules t2).0) [
              | inr bad ↦ absurd (ground (arith, one, two, bad, e))
              | inl good ↦ record {
                first = t1;
                second = t2;
                third = (store_rules c q.rules t2).1;
                backends = one;
                strategy_ = two;
                rules = ap (λ b. (b, (store_rules c q.rules t2).1)) good;
                rewrites = ground (arith, one, two, good, e);
              }
            ]
          ]
    ]

pub store-IsStored :
    (c : Call) (bs : List WeightedBackend) (strategy : Text) (q : UpdateBackendsRequest)
    (t t' : Table)
    → IsCodec c.codec
    → store c bs strategy q t ≡ (true, t')
    → IsStored c bs strategy q t t'
unfolding list_beq
store-IsStored c bs strategy q t t' codec e =
    let w = store-Writes c bs strategy q t t' e in
    let (backends, rest1) =
      set_backends_reads c.codec c.faults.backends bs t w.first codec w.backends in
    let own2 = write_own c.faults.strategy setting_strategy strategy w.first w.second w.strategy_ in
    let rest2 =
      write_rest c.faults.strategy setting_strategy strategy w.first w.second w.strategy_ in
    let (rules, rest3) = store_rules_reads c q.rules w.second w.third codec w.rules in
    let (rewrites, rest4) = store_rewrites_reads c q.rewrites w.third t' codec w.rewrites in
    record {
      backends =
          read_backends c.codec setting_rewrites w.third t' rest4 refl
          ∙ read_backends c.codec setting_rules w.second w.third rest3 refl
          ∙ read_backends c.codec setting_strategy w.first w.second rest2 refl
          ∙ backends;
      strategy_ = rest4 setting_strategy refl ∙ rest3 setting_strategy refl ∙ own2;
      rules =
          read_rules c.codec setting_rewrites w.third t' rest4 refl
          ∙ rules
          ∙ ap (given_or q.rules) (
              read_rules c.codec setting_strategy w.first w.second rest2 refl
              ∙ read_rules c.codec setting_backends t w.first rest1 refl);
      rewrites =
          rewrites
          ∙ ap (given_or q.rewrites) (
              read_rewrites c.codec setting_rules w.second w.third rest3 refl
              ∙ read_rewrites c.codec setting_strategy w.first w.second rest2 refl
              ∙ read_rewrites c.codec setting_backends t w.first rest1 refl);
    }

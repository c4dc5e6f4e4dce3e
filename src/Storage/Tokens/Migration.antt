-- ===== src/Storage/Tokens/Migration.antt =====
-- The migration of plain tokens to hashes.
use proxy_sentinel.Base.Table.{update_rows}
use proxy_sentinel.Base.Text.{Text}
use proxy_sentinel.Base.{
  ℕ, ◌≡◌, ◌≢◌, ◌∙◌, sym, ap, refl, inl, inr, true, List, [], ◌∷◌, ◌++◌, map, arith, ◌==◌, nat_eq,
  list_eq, if◌then◌else◌, length, keep, All, All-append, Bool-cases, Option-cases,
}
use proxy_sentinel.Proxy.RequestId.{hex_encode, length-hex_encode}
use proxy_sentinel.Storage.Tokens.{
  ProxyToken, Tokens, hash_token, has_id, with_token, legacy_tokens, set_token, convert_tokens,
  migrate_legacy_tokens,
}
use mathlib.Core.List.{append_assoc}
use mathlib.Core.Path.{ap₂}

-- What becomes of a row: a token of 64 bytes stays, and any other gives way to its digest in hexadecimal.
abbrev pub migrated : (Text → Text) → ProxyToken → ProxyToken
migrated sha p = if length p.token == 64 then p else record p { token = hex_encode (sha p.token) }

-- The ids of a table are different, as its primary key has it.
unfoldable pub AllApart : List ProxyToken → Type 0
AllApart [] = Unit
AllApart (p ∷ ps) = All (λ q. q.id ≢ p.id) ps × AllApart ps

update_rows-append :
    (id : ℕ) (h : Text) (xs ys : List ProxyToken)
    → update_rows (has_id id) (with_token h) (xs ++ ys)
      ≡ update_rows (has_id id) (with_token h) xs ++ update_rows (has_id id) (with_token h) ys
unfolding update_rows
update_rows-append id h [] ys = refl
update_rows-append id h (x ∷ xs) ys =
    ap (◌∷◌ (if has_id id x then with_token h x else x)) (update_rows-append id h xs ys)

-- An UPDATE leaves rows of other ids alone.
update_rows-idle :
    (id : ℕ) (h : Text) (xs : List ProxyToken)
    → All (λ q. q.id ≢ id) xs
    → update_rows (has_id id) (with_token h) xs ≡ xs
unfolding update_rows
update_rows-idle id h [] far = refl
update_rows-idle id h (x ∷ xs) (apart, far) = ground (arith, apart, update_rows-idle id h xs far)

update_rows-head :
    (p : ProxyToken) (h : Text) (ps : List ProxyToken)
    → All (λ q. q.id ≢ p.id) ps
    → update_rows (has_id p.id) (with_token h) (p ∷ ps) ≡ with_token h p ∷ ps
unfolding update_rows
update_rows-head p h ps behind = ground (arith, update_rows-idle p.id h ps behind)

-- The row of the id alone is changed.
update_rows-one :
    (p : ProxyToken) (h : Text) (qs ps : List ProxyToken)
    → All (λ q. q.id ≢ p.id) qs
    → All (λ q. q.id ≢ p.id) ps
    → update_rows (has_id p.id) (with_token h) (qs ++ p ∷ ps) ≡ (qs ++ with_token h p ∷ []) ++ ps
update_rows-one p h qs ps before behind =
    update_rows-append p.id h qs (p ∷ ps)
    ∙ ap₂ (◌++◌) (update_rows-idle p.id h qs before) (update_rows-head p h ps behind)
    ∙ sym (append_assoc qs (with_token h p ∷ []) ps)

-- A round for the first row, in a table where the rows in front of it are done.
convert_first :
    (sha : Text → Text) (qs ps : List ProxyToken) (p : ProxyToken)
    → All (λ q. q.id ≢ p.id) qs
    → All (λ q. q.id ≢ p.id) ps
    → (convert_tokens sha (legacy_tokens (p ∷ ps)) (qs ++ p ∷ ps)).0 ≡ true
    → convert_tokens sha (legacy_tokens (p ∷ ps)) (qs ++ p ∷ ps)
      ≡ convert_tokens sha (legacy_tokens ps) ((qs ++ migrated sha p ∷ []) ++ ps)
unfolding legacy_tokens keep convert_tokens
convert_first sha qs ps p before behind done = elim (Bool-cases (length p.token == 64)) [
  | inl hashed ↦
      rw hashed (ap (convert_tokens sha (legacy_tokens ps)) (sym (append_assoc qs (p ∷ []) ps)))
  | inr plain ↦ elim (Option-cases (set_token p.id (hash_token sha p.token) (qs ++ p ∷ ps))) [
    | inl taken ↦ absurd (ground (arith, plain, taken, done))
    | inr (rows, stored) ↦
        let h = hash_token sha p.token in
        let same : update_rows (has_id p.id) (with_token h) (qs ++ p ∷ ps) ≡ rows =
          unfold set_token in ground (arith, stored) in
        let listed : legacy_tokens (p ∷ ps) ≡ p ∷ legacy_tokens ps = ground (arith, plain) in
        let its : with_token h p ≡ migrated sha p = unfold hash_token in rw plain in
        let go : convert_tokens sha (p ∷ legacy_tokens ps) (qs ++ p ∷ ps)
            ≡ convert_tokens sha (legacy_tokens ps) rows =
          ground (arith, stored) in
        ap (λ left. convert_tokens sha left (qs ++ p ∷ ps)) listed
        ∙ go
        ∙ ap (convert_tokens sha (legacy_tokens ps)) (
            sym same ∙ update_rows-one p h qs ps before behind ∙ ap (λ y. (qs ++ y ∷ []) ++ ps) its)
  ]
]

-- A row that is done is as far from the rows behind it as it was.
far_behind :
    (qs ps : List ProxyToken) (x : ProxyToken)
    → All (λ r. All (λ q. q.id ≢ r.id) qs) ps
    → All (λ q. q.id ≢ x.id) ps
    → All (λ r. All (λ q. q.id ≢ r.id) (qs ++ x ∷ [])) ps
far_behind qs [] x far apart = tt
far_behind qs (p ∷ ps) x (f, far) (a, apart) = (
  All-append (λ q. q.id ≢ p.id) qs (x ∷ []) f ((λ e. a (sym e)), tt),
  far_behind qs ps x far apart,
)

migrated-id : (sha : Text → Text) (p : ProxyToken) → (migrated sha p).id ≡ p.id
migrated-id sha p = ground arith

convert_tokens-map :
    (sha : Text → Text) (qs ps : List ProxyToken)
    → AllApart ps
    → All (λ p. All (λ q. q.id ≢ p.id) qs) ps
    → (convert_tokens sha (legacy_tokens ps) (qs ++ ps)).0 ≡ true
    → convert_tokens sha (legacy_tokens ps) (qs ++ ps) ≡ (true, qs ++ map (migrated sha) ps)
unfolding AllApart
convert_tokens-map sha qs [] apart far done = unfold legacy_tokens keep convert_tokens in refl
convert_tokens-map sha qs (p ∷ ps) (a, apart) (f, far) done =
    let step = convert_first sha qs ps p f a done in
    let x = migrated sha p in
    let apart_x : All (λ q. q.id ≢ x.id) ps = rw (migrated-id sha p) a in
    step
    ∙ convert_tokens-map sha (qs ++ x ∷ []) ps apart (far_behind qs ps x far apart_x)
        (ap (λ r. r.0) (sym step) ∙ done)
    ∙ ap (λ rows. (true, rows)) (append_assoc qs (x ∷ []) (map (migrated sha) ps))

no_legacy :
    (sha : Text → Text) (rows : List ProxyToken)
    → ((token : Text) → length (sha token) ≡ 32)
    → legacy_tokens (map (migrated sha) rows) ≡ []
unfolding legacy_tokens keep
no_legacy sha [] size = refl
no_legacy sha (p ∷ ps) size =
    let hashed : length (hex_encode (sha p.token)) ≡ 64 =
      omega (arith, length-hex_encode (sha p.token), size p.token) in
    ground (arith, no_legacy sha ps size, hashed)

-- If the ids of the table are different and every digest has 32 bytes, as those of SHA-256 have, a migration
-- that succeeds changes nothing but the tokens that are not 64 bytes long: each gives way to the digest of
-- that token in hexadecimal, in its own row. A token of 64 bytes is left as it is, also a plain one. The next
-- migration succeeds and changes nothing.
pub migrate_legacy_tokens-map :
    (sha : Text → Text) (t : Tokens)
    → AllApart t.rows
    → ((token : Text) → length (sha token) ≡ 32)
    → (migrate_legacy_tokens sha t).0 ≡ true
    → let t' : Tokens = record t { rows = map (migrated sha) t.rows } in
      (migrate_legacy_tokens sha t ≡ (true, t')) × (migrate_legacy_tokens sha t' ≡ (true, t'))
unfolding migrate_legacy_tokens
migrate_legacy_tokens-map sha t apart size done = (
  ap (λ r. (r.0, record t { rows = r.1 }))
      (convert_tokens-map sha [] t.rows apart (far_from_none t.rows) done),
  rw (no_legacy sha t.rows size) (unfold convert_tokens in refl),
)
  where
    far_from_none : (ps : List ProxyToken) → All (λ p. All (λ (q : ProxyToken). q.id ≢ p.id) []) ps
    far_from_none [] = tt
    far_from_none (p ∷ ps) = (tt, far_from_none ps)

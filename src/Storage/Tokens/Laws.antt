-- ===== src/Storage/Tokens/Laws.antt =====
-- The constraints of the table of tokens, and what its statements do to the validity of a token.
use proxy_sentinel.Base.Int.{ℤ}
use proxy_sentinel.Base.Table.{
  find_row, delete_rows, has_row, find_row-true, find_row-All, find_row-delete_rows,
}
use proxy_sentinel.Base.Affix.{text_eq_iff}
use proxy_sentinel.Base.Text.{Text}
use proxy_sentinel.Base.{
  ℕ, ◌≡◌, ◌≢◌, ◌∙◌, sym, ap, ◌⊎◌, inl, inr, refl, Bool, true, false, ◌&&◌, List, [], ◌∷◌, ◌++◌,
  Option, none, some, arith, nat_eq, list_eq, All, All_map, Bool-cases, Option-cases,
}
use proxy_sentinel.Storage.Tokens.{
  ProxyToken, Tokens, hash_token, has_hash, has_id, is_live, new_token, add_token, token_exists,
  valid_token, delete_token,
}

-- Two rows that the constraint lets stand together.
abbrev pub Differ : ProxyToken → ProxyToken → Type 0
Differ p q = q.token ≢ p.token

unfoldable pub AllDiffer : List ProxyToken → Type 0
AllDiffer [] = Unit
AllDiffer (p ∷ ps) = All (Differ p) ps × AllDiffer ps

-- A token is accepted only for a row with its hash that has not expired, and with the limit of that row.
valid_token_lem :
    (sha : Text → Text) (fails : Bool) (now : ℕ) (token : Text) (t : Tokens) (id : ℕ) (rpm : ℤ)
    → (valid_token sha fails now token t).0 ≡ some (id, rpm)
    → (p : ProxyToken) × (find_row (λ q. has_hash (hash_token sha token) q && is_live now q) t.rows
        ≡ some p)
      × (p.token ≡ hash_token sha token)
      × (is_live now p ≡ true)
      × (p.id ≡ id)
      × (p.rate_limit_rpm ≡ rpm)
unfolding valid_token
valid_token_lem sha fails now token t id rpm e =
    elim (Option-cases
      (find_row (λ q. has_hash (hash_token sha token) q && is_live now q) t.rows)) [
        | inl missing ↦ absurd (ground (arith, missing, e))
        | inr (p, found) ↦
            let hit =
              find_row-true (λ q. has_hash (hash_token sha token) q && is_live now q) t.rows p
                found in
            (
              p,
              found,
              ground (arith, hit, text_eq_iff p.token (hash_token sha token)),
              ground (arith, hit),
              ground (arith, found, e),
              ground (arith, found, e),
            )
      ]

find_row-append :
    (p : ProxyToken → Bool) (xs : List ProxyToken) (x : ProxyToken)
    → find_row p xs ≡ none
    → p x ≡ true
    → find_row p (xs ++ x ∷ []) ≡ some x
unfolding find_row
find_row-append p [] x e hit = ground (arith, hit)
find_row-append p (y ∷ ys) x e hit = ground (arith, e, hit, find_row-append p ys x)

-- No row with the hash, no row with the hash that is live.
none_live :
    (h : Text) (now : ℕ) (xs : List ProxyToken)
    → has_row (has_hash h) xs ≡ false
    → find_row (λ q. has_hash h q && is_live now q) xs ≡ none
unfolding has_row find_row
none_live h now [] e = refl
none_live h now (x ∷ xs) e = ground (arith, e, none_live h now xs)

pub add_token-accepts :
    (sha : Text → Text) (made : ℕ) (token name : Text) (rpm : ℤ) (expires : Option ℕ)
    (t t' : Tokens) (fails : Bool) (now : ℕ)
    → add_token sha made token name rpm expires t ≡ some t'
    → is_live now (new_token sha made token name rpm expires t.next_id) ≡ true
    → (valid_token sha fails now token t').0 ≡ some (t.next_id, rpm)
unfolding valid_token add_token token_exists
add_token-accepts sha made token name rpm expires t t' fails now e live =
    let h = hash_token sha token in
    let new = new_token sha made token name rpm expires t.next_id in
    let fresh : has_row (has_hash h) t.rows ≡ false = ground (arith, e) in
    let hit : (has_hash h new && is_live now new) ≡ true =
      unfold new_token in ground (arith, live, text_eq_iff h h) in
    let found =
      find_row-append (λ q. has_hash h q && is_live now q) t.rows new (none_live h now t.rows fresh)
        hit in
    let rows : t.rows ++ new ∷ [] ≡ t'.rows = ground (arith, e, fresh) in
    let there : find_row (λ q. has_hash h q && is_live now q) t'.rows ≡ some new =
      ap (find_row (λ q. has_hash h q && is_live now q)) (sym rows) ∙ found in
    unfold new_token in ground (arith, there)

-- In front of the row that an id finds, and behind it, no row has its token.
same_token :
    (h : Text) (now id : ℕ) (p : ProxyToken) (rows : List ProxyToken)
    → AllDiffer rows
    → find_row (has_id id) rows ≡ some p
    → p.token ≡ h
    → All (λ q. ((has_hash h q && is_live now q) ≡ false) ⊎ (has_id id q ≡ true)) rows
unfolding AllDiffer find_row
same_token h now id p [] differ found e = tt
same_token h now id p (x ∷ xs) (d, ds) found e = elim (Bool-cases (has_id id x)) [
  | inl hit ↦
      let same : x ≡ p = ground (arith, hit, found) in
      (
        inr hit,
        All_map (Differ x) (λ q. ((has_hash h q && is_live now q) ≡ false) ⊎ (has_id id q ≡ true))
            xs
            (λ q apart.
              inl (ground (arith, apart, ap (λ y. y.token) same, e, text_eq_iff q.token h)))
            d,
      )
  | inr miss ↦
      let rest : find_row (has_id id) xs ≡ some p = ground (arith, miss, found) in
      let apart = find_row-All (Differ x) (has_id id) xs p d rest in
      (inl (ground (arith, apart, e, text_eq_iff x.token h)), same_token h now id p xs ds rest e)
]

-- A token is refused once the row of its hash is deleted.
pub delete_token_lem :
    (sha : Text → Text) (fails : Bool) (now id : ℕ) (token : Text) (t : Tokens) (p : ProxyToken)
    → AllDiffer t.rows
    → find_row (has_id id) t.rows ≡ some p
    → p.token ≡ hash_token sha token
    → (valid_token sha fails now token (delete_token id t).1).0 ≡ none
unfolding valid_token delete_token
delete_token_lem sha fails now id token t p differ found e = ground (
  arith,
  find_row-delete_rows (λ q. has_hash (hash_token sha token) q && is_live now q) (has_id id) t.rows
      (same_token (hash_token sha token) now id p t.rows differ found e),
)

All-delete :
    (P : ProxyToken → Type 0) (q : ProxyToken → Bool) (xs : List ProxyToken)
    → All P xs
    → All P (delete_rows q xs)
unfolding delete_rows
All-delete P q [] h = tt
All-delete P q (x ∷ xs) (h, hs) = elim (Bool-cases (q x)) [
  | inl gone ↦ rw gone (All-delete P q xs hs)
  | inr kept ↦ rw kept (h, All-delete P q xs hs)
]

AllDiffer-delete :
    (q : ProxyToken → Bool) (xs : List ProxyToken) → AllDiffer xs → AllDiffer (delete_rows q xs)
unfolding AllDiffer delete_rows
AllDiffer-delete q [] h = tt
AllDiffer-delete q (x ∷ xs) (h, hs) = elim (Bool-cases (q x)) [
  | inl gone ↦ rw gone (AllDiffer-delete q xs hs)
  | inr kept ↦ rw kept (All-delete (Differ x) q xs h, AllDiffer-delete q xs hs)
]

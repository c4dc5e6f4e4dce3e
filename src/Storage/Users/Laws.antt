-- ===== src/Storage/Users/Laws.antt =====
-- The constraints of the table of users, and what the statements do to the row of a name.
use mathlib.Core.Path.{subst}
use proxy_sentinel.Base.Table.{
  find_row, update_rows, delete_rows, has_row, find_row-true, find_row-All, find_row-delete_rows,
  find_row-update_rows,
}
use proxy_sentinel.Base.Affix.{text_eq_iff}
use proxy_sentinel.Base.Text.{Text}
use proxy_sentinel.Base.{
  ℕ, ◌+◌, ◌<◌, ◌≡◌, ◌≢◌, ◌⊎◌, inl, inr, refl, ◌∙◌, ap, sym, Bool, true, false, List, [], ◌∷◌, ◌++◌,
  none, some, arith, nat_eq, list_eq, All, All_map, All-append, Bool-cases,
}
use proxy_sentinel.Storage.Users.{
  User, Users, named, has_id, get_user_by_username, delete_user, user_exists, new_user, create_user,
  with_role, update_user_role, with_password, update_password_hash,
}

-- Two rows that the constraints let stand together.
abbrev pub Differ : User → User → Type 0
Differ u v = (v.username ≢ u.username) × (v.id ≢ u.id)

unfoldable pub AllDiffer : List User → Type 0
AllDiffer [] = Unit
AllDiffer (u ∷ us) = All (Differ u) us × AllDiffer us

-- Ids and names are unique, and the next id is above all of them.
pub record IsValid (t : Users) : Type 0 where
  pub unique : AllDiffer t.rows
  pub below : All (λ u. u.id < t.next_id) t.rows

-- The row that an id finds is the row that its name finds.
named-has_id :
    (rows : List User) (id : ℕ) (u : User)
    → AllDiffer rows
    → find_row (has_id id) rows ≡ some u
    → find_row (named u.username) rows ≡ some u
unfolding find_row AllDiffer
named-has_id [] id u v e = absurd (ground (arith, e))
named-has_id (x ∷ xs) id u (d, v) e = elim (Bool-cases (has_id id x)) [
  | inl hit ↦
      let same : x ≡ u = ground (arith, hit, e) in
      ground (arith, ap (λ w. w.username) same, same, text_eq_iff x.username u.username)
  | inr miss ↦
      let found : find_row (has_id id) xs ≡ some u = ground (arith, miss, e) in
      let apart = find_row-All (Differ x) (has_id id) xs u d found in
      ground (arith, apart, text_eq_iff x.username u.username, named-has_id xs id u v found)
]

-- Deleting the row of an id frees its name.
delete-frees :
    (rows : List User) (id : ℕ) (u : User)
    → AllDiffer rows
    → find_row (has_id id) rows ≡ some u
    → find_row (named u.username) (delete_rows (has_id id) rows) ≡ none
unfolding find_row AllDiffer delete_rows
delete-frees [] id u v e = absurd (ground (arith, e))
delete-frees (x ∷ xs) id u (d, v) e = elim (Bool-cases (has_id id x)) [
  | inl hit ↦
      let same : x ≡ u = ground (arith, hit, e) in
      rw hit (
        find_row-delete_rows (named u.username) (has_id id) xs (
          All_map (Differ x) (λ y. (named u.username y ≡ false) ⊎ (has_id id y ≡ true)) xs
            (λ y apart.
              inl (
                ground
                  (arith, apart, ap (λ w. w.username) same, text_eq_iff y.username u.username)))
            d))
  | inr miss ↦
      let found : find_row (has_id id) xs ≡ some u = ground (arith, miss, e) in
      let apart = find_row-All (Differ x) (has_id id) xs u d found in
      rw miss
        (ground (arith, apart, text_eq_iff x.username u.username, delete-frees xs id u v found))
]

-- What a change of the role does to the row of a user's name.
pub update_user_role_lem :
    (t : Users) (id : ℕ) (role : Text) (u : User)
    → IsValid t
    → find_row (has_id id) t.rows ≡ some u
    → get_user_by_username u.username (update_user_role id role t) ≡ some (with_role role u)
unfolding get_user_by_username update_user_role
update_user_role_lem t id role u v e =
    find_row-update_rows (named u.username) (has_id id) (with_role role) t.rows u
      (λ y. unfold with_role in refl) (named-has_id t.rows id u v.unique e)
    ∙ ground (arith, find_row-true (has_id id) t.rows u e)

pub update_password_hash_lem :
    (t : Users) (id : ℕ) (hash : Text) (u : User)
    → IsValid t
    → find_row (has_id id) t.rows ≡ some u
    → get_user_by_username u.username (update_password_hash u.username hash t)
      ≡ some (with_password hash u)
unfolding get_user_by_username update_password_hash
update_password_hash_lem t id hash u v e =
    find_row-update_rows (named u.username) (named u.username) (with_password hash) t.rows u
      (λ y. unfold with_password in refl) (named-has_id t.rows id u v.unique e)
    ∙ ground (arith, text_eq_iff u.username u.username)

pub delete_user_lem :
    (t : Users) (id : ℕ) (u : User)
    → IsValid t
    → find_row (has_id id) t.rows ≡ some u
    → get_user_by_username u.username (delete_user id t).1 ≡ none
unfolding get_user_by_username delete_user
delete_user_lem t id u v e = delete-frees t.rows id u v.unique e

get_user_by_username_lem :
    (t : Users) (id : ℕ) (u : User)
    → IsValid t
    → find_row (has_id id) t.rows ≡ some u
    → get_user_by_username u.username t ≡ some u
unfolding get_user_by_username
get_user_by_username_lem t id u v e = named-has_id t.rows id u v.unique e

-- A statement that leaves ids and names alone.
abbrev KeepsKeys : (User → User) → Type 0
KeepsKeys f = (u : User) → ((f u).username ≡ u.username) × ((f u).id ≡ u.id)

Differ-update :
    (q : User → Bool) (f : User → User) (x y : User) (xs : List User)
    → KeepsKeys f
    → (y.username ≡ x.username) × (y.id ≡ x.id)
    → All (Differ x) xs
    → All (Differ y) (update_rows q f xs)
unfolding update_rows
Differ-update q f x y [] keeps same h = tt
Differ-update q f x y (z ∷ zs) keeps same ((name, key), hs) =
    let rest = Differ-update q f x y zs keeps same hs in
    elim (Bool-cases (q z)) [
      | inl hit ↦ rw hit (
        ((λ e. name (sym (keeps z).0 ∙ e ∙ same.0)), λ e. key (sym (keeps z).1 ∙ e ∙ same.1)),
        rest,
      )
      | inr miss ↦ rw miss (((λ e. name (e ∙ same.0)), λ e. key (e ∙ same.1)), rest)
    ]

AllDiffer-update :
    (q : User → Bool) (f : User → User) (xs : List User)
    → KeepsKeys f
    → AllDiffer xs
    → AllDiffer (update_rows q f xs)
unfolding update_rows AllDiffer
AllDiffer-update q f [] keeps h = tt
AllDiffer-update q f (x ∷ xs) keeps (h, hs) = elim (Bool-cases (q x)) [
  | inl hit ↦
      rw hit (Differ-update q f x (f x) xs keeps (keeps x) h, AllDiffer-update q f xs keeps hs)
  | inr miss ↦
      rw miss (Differ-update q f x x xs keeps (refl, refl) h, AllDiffer-update q f xs keeps hs)
]

All-update_rows :
    (P : User → Type 0) (q : User → Bool) (f : User → User) (xs : List User)
    → ((u : User) → P u → P (f u))
    → All P xs
    → All P (update_rows q f xs)
unfolding update_rows
All-update_rows P q f [] keeps h = tt
All-update_rows P q f (x ∷ xs) keeps (h, hs) = elim (Bool-cases (q x)) [
  | inl hit ↦ rw hit (keeps x h, All-update_rows P q f xs keeps hs)
  | inr miss ↦ rw miss (h, All-update_rows P q f xs keeps hs)
]

All-delete_rows :
    (P : User → Type 0) (q : User → Bool) (xs : List User) → All P xs → All P (delete_rows q xs)
unfolding delete_rows
All-delete_rows P q [] h = tt
All-delete_rows P q (x ∷ xs) (h, hs) = elim (Bool-cases (q x)) [
  | inl gone ↦ rw gone (All-delete_rows P q xs hs)
  | inr kept ↦ rw kept (h, All-delete_rows P q xs hs)
]

AllDiffer-delete : (q : User → Bool) (xs : List User) → AllDiffer xs → AllDiffer (delete_rows q xs)
unfolding AllDiffer delete_rows
AllDiffer-delete q [] h = tt
AllDiffer-delete q (x ∷ xs) (h, hs) = elim (Bool-cases (q x)) [
  | inl gone ↦ rw gone (AllDiffer-delete q xs hs)
  | inr kept ↦ rw kept (All-delete_rows (Differ x) q xs h, AllDiffer-delete q xs hs)
]

pub update_user_role-IsValid :
    (t : Users) (id : ℕ) (role : Text) → IsValid t → IsValid (update_user_role id role t)
unfolding update_user_role with_role
update_user_role-IsValid t id role v = record {
  unique = AllDiffer-update (has_id id) (with_role role) t.rows (λ u. (refl, refl)) v.unique;
  below =
      All-update_rows (λ u. u.id < t.next_id) (has_id id) (with_role role) t.rows (λ u h. h)
        v.below;
}

pub update_password_hash-IsValid :
    (t : Users) (name hash : Text) → IsValid t → IsValid (update_password_hash name hash t)
unfolding update_password_hash with_password
update_password_hash-IsValid t name hash v = record {
  unique = AllDiffer-update (named name) (with_password hash) t.rows (λ u. (refl, refl)) v.unique;
  below =
      All-update_rows (λ u. u.id < t.next_id) (named name) (with_password hash) t.rows (λ u h. h)
        v.below;
}

pub delete_user-IsValid : (t : Users) (id : ℕ) → IsValid t → IsValid (delete_user id t).1
unfolding delete_user
delete_user-IsValid t id v = record {
  unique = AllDiffer-delete (has_id id) t.rows v.unique;
  below = All-delete_rows (λ u. u.id < t.next_id) (has_id id) t.rows v.below;
}

-- A new row stands at the end, with a new id and a name that no row has.
AllDiffer-append :
    (xs : List User) (u : User) → AllDiffer xs → All (λ x. Differ x u) xs → AllDiffer (xs ++ u ∷ [])
unfolding AllDiffer
AllDiffer-append [] u h k = (tt, tt)
AllDiffer-append (x ∷ xs) u (h, hs) (k, ks) =
    (All-append (Differ x) xs (u ∷ []) h (k, tt), AllDiffer-append xs u hs ks)

no_name :
    (name : Text) (xs : List User)
    → has_row (named name) xs ≡ false
    → All (λ x. x.username ≢ name) xs
unfolding has_row find_row
no_name name [] h = tt
no_name name (x ∷ xs) h =
    let apart : (named name x ≡ false) × (has_row (named name) xs ≡ false) = ground (arith, h) in
    ((λ e. ground (arith, apart, text_eq_iff x.username name, e)), no_name name xs apart.1)

All_both : (P Q : User → Type 0) (xs : List User) → All P xs → All Q xs → All (λ x. P x × Q x) xs
All_both P Q [] h k = tt
All_both P Q (x ∷ xs) (h, hs) (k, ks) = ((h, k), All_both P Q xs hs ks)

pub create_user-IsValid :
    (now : ℕ) (name hash role : Text) (t t' : Users)
    → IsValid t
    → create_user now name hash role t ≡ some t'
    → IsValid t'
unfolding create_user user_exists new_user
create_user-IsValid now name hash role t t' v e =
    let fresh : user_exists name t ≡ false = ground (arith, e) in
    let apart =
      All_both (λ x. x.username ≢ name) (λ x. x.id < t.next_id) t.rows (no_name name t.rows fresh)
        v.below in
    let u = new_user now name hash role t.next_id in
    let same : t' ≡ record { rows = t.rows ++ u ∷ []; next_id = t.next_id + 1 } =
      ground (arith, e, fresh) in
    subst IsValid (sym same) (record {
      unique = AllDiffer-append t.rows u v.unique (
          All_map (λ x. (x.username ≢ name) × (x.id < t.next_id)) (λ x. Differ x u) t.rows
            (λ x h. ((λ k. h.0 (sym k)), λ k. ground (arith, h.1, k))) apart);
      below =
          All-append (λ x. x.id < t.next_id + 1) t.rows (u ∷ [])
            (All_map (λ x. x.id < t.next_id) (λ x. x.id < t.next_id + 1) t.rows (λ x h. omega arith)
              v.below)
            (ground arith, tt);
    })

-- ===== src/Api/Users/Guarded.antt =====
-- Who stays: an administrator cannot lose the own account or the own role, and the table stays valid.
use mathlib.Core.Path.{subst⁻¹}
use proxy_sentinel.Base.Table.{
  find_row, find_row-update_rows, delete_rows, find_row-true, find_row-All,
}
use proxy_sentinel.Base.Affix.{text_eq_iff}
use proxy_sentinel.Base.Text.{Text, bytes}
use proxy_sentinel.Base.{
  ℕ, ◌≡◌, ◌≢◌, ◌⊎◌, inl, inr, refl, ◌∙◌, ap, sym, Bool, false, List, [], ◌∷◌, Option, some, arith,
  nat_eq, list_eq, if◌then◌else◌, All, All_map, Bool-cases,
}
use proxy_sentinel.Storage.Users
use proxy_sentinel.Storage.Users.{
  User, named, has_id, get_user_by_username, with_role, with_password,
}
use proxy_sentinel.Storage.Users.Laws.{
  IsValid, AllDiffer, Differ, update_user_role-IsValid, update_password_hash-IsValid,
  delete_user-IsValid,
}
use proxy_sentinel.Api.Users.{
  Call, Accounts, audit, create_user, delete_user, reset_password, update_role, CreateUserRequest,
  ResetPasswordRequest, UpdateRoleRequest,
}
use proxy_sentinel.Api.Users.Outcomes.{IsOutcome, denied, changed, IsDeletion, IsReset, IsPromotion}

-- A row with the id is the row that the id finds.
by_id :
    (rows : List User) (id : ℕ) (u : User)
    → AllDiffer rows
    → find_row (has_id id) rows ≡ some u
    → All (λ x. (has_id id x ≡ false) ⊎ (x ≡ u)) rows
unfolding find_row AllDiffer
by_id [] id u v e = tt
by_id (x ∷ xs) id u (d, v) e = elim (Bool-cases (has_id id x)) [
  | inl hit ↦
      let same : x ≡ u = ground (arith, hit, e) in
      (
        inr same,
        All_map (Differ x) (λ y. (has_id id y ≡ false) ⊎ (y ≡ u)) xs
            (λ y apart. inl (ground (arith, apart, hit))) d,
      )
  | inr miss ↦ (inl miss, by_id xs id u v (ground (arith, miss, e)))
]

-- A deletion leaves the row of another name.
find_row-kept :
    (p q : User → Bool) (xs : List User)
    → All (λ x. (p x ≡ false) ⊎ (q x ≡ false)) xs
    → find_row p (delete_rows q xs) ≡ find_row p xs
unfolding find_row delete_rows
find_row-kept p q [] h = refl
find_row-kept p q (x ∷ xs) (h, hs) = elim (Bool-cases (q x)) [
  | inl gone ↦ rw gone (ground (arith, h, gone, find_row-kept p q xs hs))
  | inr kept ↦ rw kept (ground (arith, h, kept, find_row-kept p q xs hs))
]

delete_user_others :
    (t : Users.Users) (id : ℕ) (u : User) (name : Text)
    → IsValid t
    → find_row (has_id id) t.rows ≡ some u
    → u.username ≢ name
    → get_user_by_username name (Users.delete_user id t).1 ≡ get_user_by_username name t
unfolding get_user_by_username Users.delete_user
delete_user_others t id u name v found other = find_row-kept (named name) (has_id id) t.rows (
    All_map (λ x. (has_id id x ≡ false) ⊎ (x ≡ u))
      (λ x. (named name x ≡ false) ⊎ (has_id id x ≡ false)) t.rows
      (λ x h. elim h [
        | inl miss ↦ inr miss
        | inr same ↦
            inl
              (ground (arith, same, ap (λ y. y.username) same, other, text_eq_iff x.username name))
      ])
      (by_id t.rows id u v.unique found))

-- An administrator of the name.
pub record IsAdmin (t : Users.Users) (name : Text) : Type 0 where
  pub user : User
  pub found : get_user_by_username name t ≡ some user
  pub admin : user.role ≡ bytes "admin"

-- A request to the handlers.
pub data Request : Type 0 where
  creates : Option CreateUserRequest → Request
  deletes : Text → Request
  resets : Text → Option ResetPasswordRequest → Request
  promotes : Text → Option UpdateRoleRequest → Request

unfoldable pub handle : Call → Request → Accounts → ℕ × Accounts
handle c (creates body) a = create_user c body a
handle c (deletes path) a = delete_user c path a
handle c (resets path body) a = reset_password c path body a
handle c (promotes path body) a = update_role c path body a

-- What every request keeps: the constraints, and the administrator who sends it.
abbrev pub Keeps : Call → Users.Users → Users.Users → Type 0
Keeps c t t' = (IsValid t → IsValid t') × (IsValid t → IsAdmin t c.current → IsAdmin t' c.current)

pub Keeps-refl : (c : Call) (t : Users.Users) → Keeps c t t
Keeps-refl c t = ((λ v. v), λ v k. k)

pub IsDeletion-Keeps :
    (c : Call) (id : ℕ) (t : Users.Users) (u : User) (t' : Users.Users)
    → find_row (has_id id) t.rows ≡ some u
    → IsDeletion c id t u t'
    → Keeps c t t'
IsDeletion-Keeps c id t u t' found done = (
  λ v. subst⁻¹ IsValid done.result (delete_user-IsValid t id v),
  λ v k. record {
    user = k.user;
    found =
        ap (get_user_by_username c.current) done.result
        ∙ delete_user_others t id u c.current v found done.other
        ∙ k.found;
    admin = k.admin;
  },
)

pub IsReset-Keeps :
    (c : Call) (t : Users.Users) (u : User) (t' : Users.Users) → IsReset t u t' → Keeps c t t'
unfolding get_user_by_username Users.update_password_hash
IsReset-Keeps c t u t' done = (
  λ v. subst⁻¹ IsValid done.result (update_password_hash-IsValid t u.username done.hash v),
  λ v k. record {
    user = if named u.username k.user then with_password done.hash k.user else k.user;
    found =
        ap (get_user_by_username c.current) done.result
        ∙ find_row-update_rows (named c.current) (named u.username) (with_password done.hash) t.rows
            k.user (λ y. unfold with_password in refl) k.found;
    admin = unfold with_password in ground (arith, k.admin);
  },
)

pub IsPromotion-Keeps :
    (c : Call) (id : ℕ) (t : Users.Users) (u : User) (t' : Users.Users)
    → find_row (has_id id) t.rows ≡ some u
    → IsPromotion c id t u t'
    → Keeps c t t'
unfolding get_user_by_username Users.update_user_role
IsPromotion-Keeps c id t u t' found done = (
  λ v. subst⁻¹ IsValid done.result (update_user_role-IsValid t id done.role v),
  λ v k. record {
    user = if has_id id k.user then with_role done.role k.user else k.user;
    found =
        ap (get_user_by_username c.current) done.result
        ∙ find_row-update_rows (named c.current) (has_id id) (with_role done.role) t.rows k.user
            (λ y. unfold with_role in refl) k.found;
    admin = own v k;
  },
)
  where
    own :
        (v : IsValid t) (k : IsAdmin t c.current)
        → (if has_id id k.user then with_role done.role k.user else k.user).role ≡ bytes "admin"
    own v k = elim (Bool-cases (has_id id k.user)) [
      | inl hit ↦
          let which =
            find_row-All (λ x. (has_id id x ≡ false) ⊎ (x ≡ u)) (named c.current) t.rows k.user
              (by_id t.rows id u v.unique found) k.found in
          let same : k.user ≡ u = ground (arith, hit, which) in
          let name =
            (text_eq_iff k.user.username c.current).0
              (find_row-true (named c.current) t.rows k.user k.found) in
          unfold with_role in
          ground (
            arith,
            hit,
            done.own (ap (λ y. y.username) (sym same) ∙ name),
            ap (λ y. y.role) same,
            k.admin,
          )
      | inr miss ↦ ground (arith, miss, k.admin)
    ]

pub outcome-Keeps :
    (Change : User → Users.Users → Type 0) (c : Call) (id : ℕ) (a : Accounts) (o : ℕ × Accounts)
    → ((u : User) (t' : Users.Users)
        → find_row (has_id id) a.users.rows ≡ some u
        → Change u t'
        → Keeps c a.users t')
    → IsOutcome Change c id a o
    → Keeps c a.users o.1.users
unfolding audit
outcome-Keeps Change c id a _ h (denied status high) = Keeps-refl c a.users
outcome-Keeps Change c id a _ h (changed u users action found done) = h u users found done

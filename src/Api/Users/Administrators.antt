-- ===== src/Api/Users/Administrators.antt =====
-- An administration that administrators run never loses its last administrator.
use mathlib.Core.Path.{subst⁻¹}
use proxy_sentinel.Base.Table.{find_row}
use proxy_sentinel.Base.Text.{Text, trim_space}
use proxy_sentinel.Base.{
  ℕ, ◌≡◌, inl, inr, Bool, ◌||◌, List, [], ◌∷◌, Option, none, some, arith, ◌++◌, ◌==◌, nat_eq,
  list_eq, ltb, length, Bool-cases, Option-cases,
}
use proxy_sentinel.Storage.Users
use proxy_sentinel.Storage.Users.{User, named, get_user_by_username}
use proxy_sentinel.Storage.Users.Laws.{IsValid, create_user-IsValid}
use proxy_sentinel.Api.Users.{
  Call, Accounts, audit, path_id, create_user, insert_user, delete_user, reset_password,
  update_role, given_role, CreateUserRequest,
}
use proxy_sentinel.Api.Users.Outcomes.{
  IsDeletion, IsReset, IsPromotion, delete_user-IsOutcome, reset_password-IsOutcome,
  update_role-IsOutcome,
}
use proxy_sentinel.Api.Users.Guarded.{
  IsAdmin, Request, creates, deletes, resets, promotes, handle, Keeps, Keeps-refl, IsDeletion-Keeps,
  IsReset-Keeps, IsPromotion-Keeps, outcome-Keeps,
}

find_row-append :
    (p : User → Bool) (xs ys : List User) (x : User)
    → find_row p xs ≡ some x
    → find_row p (xs ++ ys) ≡ some x
unfolding find_row
find_row-append p [] ys x e = absurd (ground (arith, e))
find_row-append p (z ∷ zs) ys x e = ground (arith, e, find_row-append p zs ys x)

created_finds :
    (now : ℕ) (name hash role other : Text) (t t' : Users.Users) (u : User)
    → Users.create_user now name hash role t ≡ some t'
    → get_user_by_username other t ≡ some u
    → get_user_by_username other t' ≡ some u
unfolding Users.create_user get_user_by_username
created_finds now name hash role other t t' u made found = ground (
  arith,
  made,
  found,
  find_row-append (named other) t.rows (Users.new_user now name hash role t.next_id ∷ []) u found,
)

created-Keeps :
    (c : Call) (name hash role : Text) (t t' : Users.Users)
    → Users.create_user c.now name hash role t ≡ some t'
    → Keeps c t t'
created-Keeps c name hash role t t' made = (
  λ v. create_user-IsValid c.now name hash role t t' v made,
  λ v k. record {
    user = k.user;
    found = created_finds c.now name hash role c.current t t' k.user made k.found;
    admin = k.admin;
  },
)

insert_user-Keeps :
    (c : Call) (name password role : Text) (a : Accounts)
    → Keeps c a.users (insert_user c name password role a).1.users
unfolding insert_user audit
insert_user-Keeps c name password role a = elim (Bool-cases c.faults.counts) [
  | inl failed ↦ same (ground (arith, failed))
  | inr counted ↦ elim (Bool-cases (Users.user_exists name a.users)) [
    | inl taken ↦ same (ground (arith, counted, taken))
    | inr new ↦ elim (Option-cases (c.hash_password password)) [
      | inl failed ↦ same (ground (arith, counted, new, failed))
      | inr (hash, hashed) ↦ elim (Bool-cases c.faults.writes) [
        | inl failed ↦ same (ground (arith, counted, new, hashed, failed))
        | inr written ↦ elim (Option-cases (Users.create_user c.now name hash role a.users)) [
          | inl refused ↦ same (ground (arith, counted, new, hashed, written, refused))
          | inr (t', made) ↦
              subst⁻¹ (Keeps c a.users) (ground (arith, counted, new, hashed, written, made))
                (created-Keeps c name hash role a.users t' made)
        ]
      ]
    ]
  ]
]
  where
    same :
        (insert_user c name password role a).1.users ≡ a.users
        → Keeps c a.users (insert_user c name password role a).1.users
    same e = subst⁻¹ (Keeps c a.users) e (Keeps-refl c a.users)

create_user-Keeps :
    (c : Call) (body : Option CreateUserRequest) (a : Accounts)
    → Keeps c a.users (create_user c body a).1.users
unfolding create_user
create_user-Keeps c none a = Keeps-refl c a.users
create_user-Keeps c (some q) a = elim (Bool-cases (trim_space q.username == [])) [
  | inl empty ↦ rw empty (Keeps-refl c a.users)
  | inr full ↦
      elim (Bool-cases
        (ltb (length (trim_space q.username)) 3 || ltb 32 (length (trim_space q.username)))) [
          | inl bad ↦ rw (full, bad) (Keeps-refl c a.users)
          | inr good ↦ elim (Bool-cases (ltb (length q.password) 6)) [
            | inl short ↦ rw (full, good, short) (Keeps-refl c a.users)
            | inr long ↦
                rw (full, good, long)
                  (insert_user-Keeps c (trim_space q.username) q.password (given_role q.role) a)
          ]
        ]
]

handle-Keeps : (c : Call) (q : Request) (a : Accounts) → Keeps c a.users (handle c q a).1.users
unfolding handle delete_user reset_password update_role
handle-Keeps c (creates body) a = create_user-Keeps c body a
handle-Keeps c (deletes path) a = elim (Option-cases (path_id path)) [
  | inl bad ↦ subst⁻¹ (Keeps c a.users) (ground (arith, bad)) (Keeps-refl c a.users)
  | inr (id, good) ↦
      outcome-Keeps (IsDeletion c id a.users) c id a (delete_user c path a)
        (IsDeletion-Keeps c id a.users) (delete_user-IsOutcome c path id a good)
]
handle-Keeps c (resets path body) a = elim (Option-cases (path_id path)) [
  | inl bad ↦ subst⁻¹ (Keeps c a.users) (ground (arith, bad)) (Keeps-refl c a.users)
  | inr (id, good) ↦
      outcome-Keeps (IsReset a.users) c id a (reset_password c path body a)
        (λ u t' found. IsReset-Keeps c a.users u t')
        (reset_password-IsOutcome c path body id a good)
]
handle-Keeps c (promotes path body) a = elim (Option-cases (path_id path)) [
  | inl bad ↦ subst⁻¹ (Keeps c a.users) (ground (arith, bad)) (Keeps-refl c a.users)
  | inr (id, good) ↦
      outcome-Keeps (IsPromotion c id a.users) c id a (update_role c path body a)
        (IsPromotion-Keeps c id a.users) (update_role-IsOutcome c path body id a good)
]

-- Requests one after another, each sent by a user who is an administrator at that time.
pub data Administered : Accounts → Accounts → Type 0 where
  rests : (a : Accounts) → Administered a a
  sends :
      (c : Call) (q : Request) (a b : Accounts)
      → IsAdmin a.users c.current
      → Administered (handle c q a).1 b
      → Administered a b

-- From a table whose constraints hold and that has an administrator: however users who are administrators at
-- the time create users, delete them, reset their passwords and change their roles, one request after
-- another, and whatever statements fail, the constraints of the table hold and some administrator is left.
pub administrator_remains :
    (a b : Accounts) (name : Text)
    → Administered a b
    → IsValid a.users
    → IsAdmin a.users name
    → IsValid b.users × ((other : Text) × IsAdmin b.users other)
administrator_remains _ _ name (rests a) valid k = (valid, (name, k))
administrator_remains _ b name (sends c q a _ sender more) valid k =
    let keeps = handle-Keeps c q a in
    administrator_remains (handle c q a).1 b c.current more (keeps.0 valid) (keeps.1 valid sender)

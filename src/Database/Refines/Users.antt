-- ===== src/Database/Refines/Users.antt =====
-- The statements on members, in the database and in memory.
use mathlib.Core.Option
use vpn_controll_app.Base.{
  ℕ, Bool, ◌&&◌, ◌||◌, not, true, false, count, any, find, String, List, [], ◌∷◌, ◌≡◌, refl, ap,
  ap₂, ◌∙◌, ◌==◌, nat_Eq, string_Eq, some, map, arith,
}
use vpn_controll_app.Base.Sort.{sorted}
use vpn_controll_app.Dict.{values}
use vpn_controll_app.Domain.Status.{UserRole, UserRole_Eq, role_value}
use vpn_controll_app.Domain.Entities.{User}
use vpn_controll_app.Outside.{Outside}
use vpn_controll_app.Storage.State.{Store}
use vpn_controll_app.Storage.Tables as Memory
use vpn_controll_app.Storage.Tables.{normalize}
use vpn_controll_app.Database.Enums.{value-eq, role_of, role_of-role_value}
use vpn_controll_app.Database.Rows.{UserRow, user_row, user_of, user_of-user_row}
use vpn_controll_app.Database.Sql.{merge_unique, read_all, read_one}
use vpn_controll_app.Database.State.{Tables}
use vpn_controll_app.Database.Storage as Rows
use vpn_controll_app.Database.Mirrors.{merge-Mirrors, get-lookup, read_sorted, read_one-map}
use vpn_controll_app.Database.Refines.{
  Represents, Statement, Reply, run_memory, run_database, Agrees, user_id, is_login_free,
}

abbrev user_row_id : UserRow → ℕ
user_row_id r = r.id

user_row_id-user_row : (x : User) → user_row_id (user_row x) ≡ user_id x
unfolding user_row
user_row_id-user_row x = refl

module _ {V R : Type 0} (row : V → R) (p : V → Bool) (q : R → Bool)
    (alike : (v : V) → q (row v) ≡ p v) where
  any-map : (vs : List V) → any q (map row vs) ≡ any p vs
  any-map [] = refl
  any-map (v ∷ vs) = ap₂ ◌||◌ (alike v) (any-map vs)

  find-map : (vs : List V) → find q (map row vs) ≡ Option.map row (find p vs)
  find-map [] = refl
  find-map (v ∷ vs) = ground (arith, alike v, find-map vs)

-- A count that is not 0 is that of a list with such an element.
count-any : {V : Type 0} (p : V → Bool) (vs : List V) → not (count p vs == 0) ≡ any p vs
count-any p [] = refl
count-any p (v ∷ vs) = ground (arith, count-any p vs)

-- Where the login is free, the table takes the row.
pub save_user-Agrees :
    (o : Outside) (x : User) (db : Tables) (s : Store)
    → Represents db s
    → is_login_free x s ≡ true
    → Agrees (run_database o (Statement.save_user x) db) (run_memory o (Statement.save_user x) s)
unfolding run_database run_memory Memory.save_user Rows.save_user merge_unique is_login_free
    user_row
save_user-Agrees o x db s h free =
    let taken : any (λ (r : UserRow). r.login == x.login && not (r.id == x.id)) db.users ≡ false =
      ap (any (λ r. r.login == x.login && not (r.id == x.id))) h.users.rows
      ∙ any-map user_row (λ v. v.login == x.login && not (v.id == x.id)) _ (λ v. refl)
          (values s.users)
      ∙ ground arith in
    rw (taken, run_database)
      (
        refl,
        record {
          jobs = h.jobs;
          devices = h.devices;
          nodes = h.nodes;
          users = merge-Mirrors user_row user_id user_row_id user_row_id-user_row x _ _ h.users;
        },
      )

pub get_user-Agrees :
    (o : Outside) (id : ℕ) (db : Tables) (s : Store)
    → Represents db s
    → Agrees (run_database o (Statement.get_user id) db) (run_memory o (Statement.get_user id) s)
unfolding run_database run_memory Rows.get_user
get_user-Agrees o id db s h = (
  ap (Option.map Reply.one_user) (
      get-lookup user_row user_id user_of user_of-user_row user_row_id user_row_id-user_row id _ _
        h.users),
  h,
)

pub find_login-Agrees :
    (o : Outside) (login : String) (db : Tables) (s : Store)
    → Represents db s
    → Agrees
        (run_database o (Statement.find_login login) db)
        (run_memory o (Statement.find_login login) s)
unfolding run_database run_memory Rows.get_user_by_login Memory.get_user_by_login user_row
find_login-Agrees o login db s h = (
  ap
        (λ t.
          Option.map Reply.one_user (read_one user_of (find (λ r. r.login == normalize o login) t)))
        h.users.rows
      ∙ ap (λ r. Option.map Reply.one_user (read_one user_of r))
          (find-map user_row (λ u. u.login == normalize o login) _ (λ v. refl) (values s.users))
      ∙ ap (Option.map Reply.one_user) (read_one-map user_row user_id user_of user_of-user_row _),
  h,
)

pub list_users-Agrees :
    (o : Outside) (db : Tables) (s : Store)
    → Represents db s
    → Agrees (run_database o Statement.list_users db) (run_memory o Statement.list_users s)
unfolding run_database run_memory Rows.list_users Memory.list_users user_row
list_users-Agrees o db s h = (
  ap (λ t. Option.map Reply.all_users (read_all user_of (sorted (λ r. r.created_at) t)))
        h.users.rows
      ∙ ap (Option.map Reply.all_users) (
          read_sorted user_row user_id user_of user_of-user_row (λ u. u.created_at)
            (λ r. r.created_at) (λ v. refl) (values s.users)),
  h,
)

pub has_admin-Agrees :
    (o : Outside) (db : Tables) (s : Store)
    → Represents db s
    → Agrees (run_database o Statement.has_admin db) (run_memory o Statement.has_admin s)
unfolding run_database run_memory Rows.has_admin Memory.has_admin user_row
has_admin-Agrees o db s h = (
  ap (λ t. some (Reply.told (not (count (λ r. r.role == "admin") t == 0)))) h.users.rows
      ∙ ap (λ b. some (Reply.told b))
          (count-any (λ r. r.role == "admin") (map user_row (values s.users))
            ∙ any-map user_row (λ u. u.role == UserRole.admin) _
                (λ v. value-eq role_value role_of role_of-role_value v.role UserRole.admin)
                (values s.users)),
  h,
)

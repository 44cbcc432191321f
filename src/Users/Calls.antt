-- ===== src/Users/Calls.antt =====
-- Any sequence of an administrator's calls on members keeps the logins unique.
use vpn_controll_app.Base.{
  ℕ, suc, ◌≡◌, refl, sym, subst, arith, Bool, true, false, not, ◌&&◌, String, some, List, [], ◌∷◌,
  ◌==◌, nat_Eq, bool_Eq, string_Eq, Option-cases, if◌then◌else◌, inl, inr,
}
use vpn_controll_app.Dict.{lookup, insert}
use vpn_controll_app.Dict.Laws.{AllValues, AllValues-insert}
use vpn_controll_app.Domain.Entities.{User}
use vpn_controll_app.Outside.{Outside}
use vpn_controll_app.Audit.{log}
use vpn_controll_app.Storage.State.{Store}
use vpn_controll_app.Storage.Action.{Action, bind_ok, raise_if, pure, ◌>>◌}
use vpn_controll_app.Errors.{Error, app}
use vpn_controll_app.Errors.Code.{ErrorCode}
use vpn_controll_app.Storage.Tables.{
  save_user, get_user_by_login, normalize, revoke_sessions_for_user,
}
use vpn_controll_app.Users
use vpn_controll_app.Users.{NewUser}
use vpn_controll_app.Users.Patch.{UserField, patch_user}
use vpn_controll_app.Users.Manage.{patch_from_same, get_ok}
use vpn_controll_app.Users.Logins.{
  IsUnique, NormalLaw, get_user_by_login-none, insert-IsUnique, replace-IsUnique,
}

-- The calls of `UserService` that write.
pub data Call : Type 0 where
  create : NewUser → Call
  update : ℕ → List UserField → Call
  reset_password : ℕ → String → Call
  set_active : ℕ → Bool → Call

-- Logins are unique, and members are filed under their ids.
pub record IsValid (s : Store) : Type 0 where
  pub unique : IsUnique s
  pub by_id : AllValues (λ k (u : User). k ≡ u.id) s.users

module _ (o : Outside) where
  -- A call, on the state; an exception keeps what was written before it.
  unfoldable pub run_call : User → Call → Store → Store
  run_call actor (Call.create new) s = (Users.create o actor new s).1
  run_call actor (Call.update user_id patch) s = (Users.update o actor user_id patch s).1
  run_call actor (Call.reset_password user_id new_password) s =
      (Users.reset_password o actor user_id new_password s).1
  run_call actor (Call.set_active user_id is_active) s =
      (Users.set_active o actor user_id is_active s).1

  unfoldable pub run : List (User × Call) → Store → Store
  run [] s = s
  run ((actor, call) ∷ calls) s = run calls (run_call actor call s)

  -- What one call does to the table of members: nothing; a member under a new login; or a member
  -- again, under the same login.
  data Change (s t : Store) : Type 0 where
    unchanged : t.users ≡ s.users → Change s t
    added :
        (u : User)
        → t.users ≡ insert u.id u s.users
        → AllValues (λ (k : ℕ) (v : User). (v.login == u.login) ≡ false) s.users
        → Change s t
    replaced :
        (u old : User)
        → t.users ≡ insert u.id u s.users
        → lookup u.id s.users ≡ some old
        → old.login ≡ u.login
        → Change s t

  Change-IsValid : (s t : Store) → Change s t → IsValid s → IsValid t
  Change-IsValid s t (Change.unchanged same) valid = record {
    unique =
        subst
          (λ d.
            (j k : ℕ) (u v : User)
            → lookup j d ≡ some u
            → lookup k d ≡ some v
            → u.login ≡ v.login
            → j ≡ k)
          (sym same) valid.unique;
    by_id = subst (AllValues (λ k (u : User). k ≡ u.id)) (sym same) valid.by_id;
  }
  Change-IsValid s t (Change.added u same fresh) valid = record {
    unique = insert-IsUnique o s t u valid.unique same fresh;
    by_id =
        subst (AllValues (λ k (u : User). k ≡ u.id)) (sym same)
          (AllValues-insert _ u.id u s.users valid.by_id refl);
  }
  Change-IsValid s t (Change.replaced u old same known kept) valid = record {
    unique = replace-IsUnique o s t u old valid.unique same known kept;
    by_id =
        subst (AllValues (λ k (u : User). k ≡ u.id)) (sym same)
          (AllValues-insert _ u.id u s.users valid.by_id refl);
  }

  create-Change :
      (actor : User) (new : NewUser) (s : Store)
      → NormalLaw o
      → Change s (Users.create o actor new s).1
  unfolding Users.create save_user log
  create-Change actor new s normal =
      elim (Option-cases (get_user_by_login o (normalize o new.login) s)) [
        | inr (taken, found) ↦ Change.unchanged (ground arith)
        | inl free ↦ simp free (
            Change.added _ refl (
              subst (λ name. AllValues (λ (k : ℕ) (v : User). (v.login == name) ≡ false) s.users)
                (normal new.login) (get_user_by_login-none o (normalize o new.login) s free)))
      ]

  save_changes-Change :
      (actor u old : User) (changed : List String) (s : Store)
      → lookup u.id s.users ≡ some old
      → old.login ≡ u.login
      → Change s (Users.save_changes o actor u changed s).1
  unfolding Users.save_changes save_user log
  save_changes-Change actor u old [] s known kept = Change.unchanged refl
  save_changes-Change actor u old (name ∷ names) s known kept =
      Change.replaced _ old refl known kept

  update-Change :
      (actor : User) (user_id : ℕ) (patch : List UserField) (s : Store)
      → IsValid s
      → Change s (Users.update o actor user_id patch s).1
  unfolding Users.update Users.get patch_user
  update-Change actor user_id patch s valid = elim (Option-cases (lookup user_id s.users)) [
    | inl absent ↦ Change.unchanged (ground arith)
    | inr (user, known) ↦
        let (patched, changed) = patch_user patch user in
        let called =
          bind_ok (Users.get o user_id)
            (λ u. let (v, names) = patch_user patch u in Users.save_changes o actor v names) s
            (get_ok o user_id user s known) in
        let same = patch_from_same patch user [] in
        subst (λ q. Change s q.1) (sym called)
          (save_changes-Change actor patched user changed s
            (ground (arith, valid.by_id user_id user known, same.id)) same.login)
  ]

  reset_password-Change :
      (actor : User) (user_id : ℕ) (password : String) (s : Store)
      → IsValid s
      → Change s (Users.reset_password o actor user_id password s).1
  unfolding Users.reset_password Users.get save_user revoke_sessions_for_user log
  reset_password-Change actor user_id password s valid =
      elim (Option-cases (lookup user_id s.users)) [
        | inl absent ↦ Change.unchanged (ground arith)
        | inr (user, known) ↦
            Change.replaced
              (record user {
                password_hash = o.hash s.asked password;
                updated_at = o.clock (suc s.asked);
              })
              user (ground arith) (ground (arith, valid.by_id user_id user known)) refl
      ]

  switch_active-Change :
      (actor user : User) (is_active : Bool) (s : Store)
      → lookup user.id s.users ≡ some user
      → Change s (Users.switch_active o actor user is_active s).1
  unfolding Users.switch_active save_user revoke_sessions_for_user log
  switch_active-Change actor user true s known = Change.replaced _ user refl known refl
  switch_active-Change actor user false s known = Change.replaced _ user refl known refl

  -- A call behind a guard and a test whether there is anything to do.
  guarded-Change :
      (refuse done : Bool) (e : Error) (user : User) (m : Action User) (s : Store)
      → Change s (m s).1
      → Change s ((raise_if refuse e >> (if done then pure user else m)) s).1
  guarded-Change true done e user m s h = Change.unchanged refl
  guarded-Change false true e user m s h = Change.unchanged refl
  guarded-Change false false e user m s h = h

  set_active-Change :
      (actor : User) (user_id : ℕ) (is_active : Bool) (s : Store)
      → IsValid s
      → Change s (Users.set_active o actor user_id is_active s).1
  unfolding Users.set_active Users.get
  set_active-Change actor user_id is_active s valid = elim (Option-cases (lookup user_id s.users)) [
    | inl absent ↦ Change.unchanged (ground arith)
    | inr (user, known) ↦
        let called =
          bind_ok (Users.get o user_id)
            (λ u.
              raise_if (u.id == actor.id && not is_active)
                (app ErrorCode.validation_error "Нельзя отключить самого себя" 400)
              >> (if u.is_active == is_active
                  then pure u
                  else Users.switch_active o actor u is_active))
            s (get_ok o user_id user s known) in
        subst (λ q. Change s q.1) (sym called)
          (guarded-Change _ (user.is_active == is_active) _ user
            (Users.switch_active o actor user is_active) s
            (switch_active-Change actor user is_active s
              (ground (arith, valid.by_id user_id user known))))
  ]

  run_call-Change :
      (actor : User) (call : Call) (s : Store)
      → NormalLaw o
      → IsValid s
      → Change s (run_call actor call s)
  unfolding run_call
  run_call-Change actor (Call.create new) s normal valid = create-Change actor new s normal
  run_call-Change actor (Call.update user_id patch) s normal valid =
      update-Change actor user_id patch s valid
  run_call-Change actor (Call.reset_password user_id password) s normal valid =
      reset_password-Change actor user_id password s valid
  run_call-Change actor (Call.set_active user_id is_active) s normal valid =
      set_active-Change actor user_id is_active s valid

  -- However administrators create, patch, enable and disable members and reset their passwords, no
  -- two members ever share a login, and each stays filed under their id, given that a normalized
  -- login is its own normal form.
  pub run-unique_logins :
      (calls : List (User × Call)) (s : Store) → NormalLaw o → IsValid s → IsValid (run calls s)
  unfolding run
  run-unique_logins [] s normal valid = valid
  run-unique_logins ((actor, call) ∷ calls) s normal valid =
      run-unique_logins calls (run_call actor call s) normal
        (Change-IsValid s _ (run_call-Change actor call s normal valid) valid)

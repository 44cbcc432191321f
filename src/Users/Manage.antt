-- ===== src/Users/Manage.antt =====
-- What a patch of a member may touch.
use vpn_controll_app.Base.{
  ◌≢◌, ◌&&◌, not, inl, inr, ap, subst, Bool-cases, ℕ, ◌≡◌, ◌∙◌, refl, sym, arith, String, some,
  List, [], ◌∷◌, nat_Eq, bool_Eq,
}
use vpn_controll_app.Dict.{lookup}
use vpn_controll_app.Dict.Laws.{lookup-insert_self, lookup-insert_ne}
use vpn_controll_app.Domain.Entities.{User}
use vpn_controll_app.Outside.{Outside}
use vpn_controll_app.Audit.{log}
use vpn_controll_app.Storage.State.{Store}
use vpn_controll_app.Storage.Action.{ok, bind_ok}
use vpn_controll_app.Storage.Tables.{save_user}
use vpn_controll_app.Users.{get, save_changes, update}
use vpn_controll_app.Users.Patch.{
  UserField, is_patchable, has, assign, patch_step, patch_from, patch_user,
}

-- What no patch touches: who the member is, how they log in, and whether they may.
pub record IsSamePerson (u v : User) : Type 0 where
  pub id : u.id ≡ v.id
  pub login : u.login ≡ v.login
  pub password_hash : u.password_hash ≡ v.password_hash
  pub is_active : u.is_active ≡ v.is_active
  pub created_at : u.created_at ≡ v.created_at
  pub created_by : u.created_by_user_id ≡ v.created_by_user_id

same_trans : (u v w : User) → IsSamePerson u v → IsSamePerson v w → IsSamePerson u w
same_trans u v w p q = record {
  id = p.id ∙ q.id;
  login = p.login ∙ q.login;
  password_hash = p.password_hash ∙ q.password_hash;
  is_active = p.is_active ∙ q.is_active;
  created_at = p.created_at ∙ q.created_at;
  created_by = p.created_by ∙ q.created_by;
}

patch_step_same :
    (f : UserField) (u : User) (changed : List String)
    → IsSamePerson u (patch_step f (u, changed)).0
unfolding patch_step is_patchable assign
patch_step_same f u changed = record {
  id = ground arith;
  login = ground arith;
  password_hash = ground arith;
  is_active = ground arith;
  created_at = ground arith;
  created_by = ground arith;
}

pub patch_from_same :
    (fs : List UserField) (u : User) (changed : List String)
    → IsSamePerson u (patch_from fs (u, changed)).0
unfolding patch_from
patch_from_same [] u changed = record {
  id = refl;
  login = refl;
  password_hash = refl;
  is_active = refl;
  created_at = refl;
  created_by = refl;
}
patch_from_same (f ∷ fs) u changed =
    let (v, more) = patch_step f (u, changed) in
    same_trans u v _ (patch_step_same f u changed) (patch_from_same fs v more)

-- A round that changes nothing notes no name, and the names noted before stay.
patch_step_quiet :
    (f : UserField) (u : User) (changed : List String)
    → (patch_step f (u, changed)).1 ≡ []
    → (patch_step f (u, changed) ≡ (u, [])) × (changed ≡ [])
unfolding patch_step
patch_step_quiet f u [] quiet = (
  elim (Bool-cases (is_patchable f && not (has u f))) [
    | inl differs ↦ cc (rw differs at quiet)
    | inr same ↦ rw same refl
  ],
  refl,
)
patch_step_quiet f u (name ∷ names) quiet = ground arith

patch_from_quiet :
    (fs : List UserField) (u : User) (changed : List String)
    → (patch_from fs (u, changed)).1 ≡ []
    → ((patch_from fs (u, changed)).0 ≡ u) × (changed ≡ [])
unfolding patch_from
patch_from_quiet [] u changed quiet = (refl, quiet)
patch_from_quiet (f ∷ fs) u changed quiet =
    let (v, names) = patch_step f (u, changed) in
    let (kept, none_yet) = patch_from_quiet fs v names quiet in
    let (same, before) = patch_step_quiet f u changed none_yet in
    (kept ∙ ap (λ (p : User × List String). p.0) same, before)

module _ (o : Outside) where
  pub get_ok :
      (user_id : ℕ) (user : User) (s : Store)
      → lookup user_id s.users ≡ some user
      → get o user_id s ≡ (ok user, s)
  unfolding get
  get_ok user_id user s known = ground arith

  -- What a patch leaves of the table: the member as returned, and everyone else as before.
  pub record IsStored (user saved : User) (s t : Store) : Type 0 where
    pub person : IsSamePerson user saved
    pub stored : lookup user.id t.users ≡ some saved
    pub others : (k : ℕ) → user.id ≢ k → lookup k t.users ≡ lookup k s.users

  save_changes_lem :
      (actor patched saved : User) (name : String) (names : List String) (s t : Store)
      → save_changes o actor patched (name ∷ names) s ≡ (ok saved, t)
      → IsStored patched saved s t
  unfolding save_changes save_user log
  save_changes_lem actor patched saved name names s t e = record {
    person = record {
      id = ground arith;
      login = ground arith;
      password_hash = ground arith;
      is_active = ground arith;
      created_at = ground arith;
      created_by = ground arith;
    };
    stored = ground (arith, lookup-insert_self patched.id saved s.users);
    others = λ k other. ground (arith, lookup-insert_ne patched.id k saved s.users);
  }

  unsaved_lem :
      (actor patched user saved : User) (s t : Store)
      → lookup user.id s.users ≡ some user
      → patched ≡ user
      → save_changes o actor patched [] s ≡ (ok saved, t)
      → IsStored user saved s t
  unfolding save_changes patch_from
  unsaved_lem actor patched user saved s t known same e =
      let kept : saved ≡ user = ground arith in
      let state : t ≡ s = ground arith in
      record {
        person = subst (IsSamePerson user) (sym kept) (patch_from_same [] user []);
        stored = ap (λ (u : Store). lookup user.id u.users) state ∙ known ∙ ap some (sym kept);
        others = λ k other. ap (λ (u : Store). lookup k u.users) state;
      }

  -- A patch of a member who is stored under their id, whatever fields of a member it names, leaves
  -- the member's id, login, password, activity and origin as they were: that is so of the member
  -- that it returns, which is the one stored afterwards, and no other member is changed.
  pub update-IsSamePerson :
      (actor user saved : User) (patch : List UserField) (s t : Store)
      → lookup user.id s.users ≡ some user
      → update o actor user.id patch s ≡ (ok saved, t)
      → IsStored user saved s t
  unfolding update patch_user
  update-IsSamePerson actor user saved patch s t known e = go (patch_user patch user).1 refl (
      sym (
        bind_ok (get o user.id)
          (λ u. let (v, names) = patch_user patch u in save_changes o actor v names) s
          (get_ok user.id user s known))
      ∙ e)
    where
      go :
          (changed : List String)
          → (patch_from patch (user, [])).1 ≡ changed
          → save_changes o actor (patch_from patch (user, [])).0 (patch_from patch (user, [])).1 s
            ≡ (ok saved, t)
          → IsStored user saved s t
      go [] none_changed run =
          unsaved_lem actor (patch_from patch (user, [])).0 user saved s t known
            (patch_from_quiet patch user [] none_changed).0
            (subst (λ c. save_changes o actor (patch_from patch (user, [])).0 c s ≡ (ok saved, t))
              none_changed run)
      go (name ∷ names) some_changed run =
          let r = save_changes_lem actor (patch_from patch (user, [])).0 saved name names s t (
            subst (λ c. save_changes o actor (patch_from patch (user, [])).0 c s ≡ (ok saved, t))
              some_changed run) in
          let same = patch_from_same patch user [] in
          record {
            person = same_trans user _ saved same r.person;
            stored = subst (λ k. lookup k t.users ≡ some saved) (sym same.id) r.stored;
            others = λ k other. r.others k (λ q. other (same.id ∙ q));
          }

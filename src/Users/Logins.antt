-- ===== src/Users/Logins.antt =====
-- Logins are unique, whatever is done to the members.
use vpn_controll_app.Base.{
  ℕ, ◌≡◌, ◌∙◌, ap, sym, subst, arith, Bool, false, String, none, some, List, [], ◌∷◌, ◌==◌, nat_Eq,
  bool_Eq, string_Eq, inl, inr, All, find,
}
use vpn_controll_app.Dict.{lookup, insert, values}
use vpn_controll_app.Dict.Laws.{AllValues, insert_cases}
use vpn_controll_app.Dict.Distinct.{AllValues-All}
use vpn_controll_app.Domain.Entities.{User}
use vpn_controll_app.Outside.{Outside}
use vpn_controll_app.Storage.State.{Store}
use vpn_controll_app.Storage.Tables.{get_user_by_login, normalize}

-- Two members with the same login are the same member.
abbrev pub IsUnique : Store → Type 0
IsUnique s =
    (j k : ℕ) (u v : User)
    → lookup j s.users ≡ some u
    → lookup k s.users ≡ some v
    → u.login ≡ v.login
    → j ≡ k

-- What `lower` and `strip` promise: a normalized login is its own normal form.
abbrev pub NormalLaw : Outside → Type 0
NormalLaw o = (login : String) → normalize o (normalize o login) ≡ normalize o login

find-none {ℓ} :
    {A : Type ℓ} (p : A → Bool) (xs : List A) → find p xs ≡ none → All (λ x. p x ≡ false) xs
find-none p [] h = tt
find-none p (x ∷ xs) h = (ground arith, find-none p xs (ground arith))

module _ (o : Outside) where
  -- A login that was not found is the login of nobody.
  pub get_user_by_login-none :
      (name : String) (s : Store)
      → get_user_by_login o name s ≡ none
      → AllValues (λ (k : ℕ) (u : User). (u.login == normalize o name) ≡ false) s.users
  unfolding get_user_by_login
  get_user_by_login-none name s h =
      AllValues-All (λ (u : User). (u.login == normalize o name) ≡ false) s.users
        (find-none _ (values s.users) h)

  pub insert-IsUnique :
      (s t : Store) (user : User)
      → IsUnique s
      → t.users ≡ insert user.id user s.users
      → AllValues (λ (k : ℕ) (u : User). (u.login == user.login) ≡ false) s.users
      → IsUnique t
  insert-IsUnique s t user unique same fresh = λ j k u v p q e.
      let case_j =
        insert_cases user.id j user u s.users (subst (λ d. lookup j d ≡ some u) same p) in
      let case_k =
        insert_cases user.id k user v s.users (subst (λ d. lookup k d ≡ some v) same q) in
      elim case_j [
        | inl (here, new) ↦ elim case_k [
          | inl (there, _) ↦ sym here ∙ there
          | inr old ↦ ground (
            arith,
            fresh k v old,
            string_Eq.is_equal_iff v.login user.login,
            ap (λ (x : User). x.login) new,
            e,
          )
        ]
        | inr old ↦ elim case_k [
          | inl (there, new) ↦ ground (
            arith,
            fresh j u old,
            string_Eq.is_equal_iff u.login user.login,
            ap (λ (x : User). x.login) new,
            e,
          )
          | inr older ↦ unique j k u v old older e
        ]
      ]

  -- A member saved again under the same id with the same login.
  pub replace-IsUnique :
      (s t : Store) (user old : User)
      → IsUnique s
      → t.users ≡ insert user.id user s.users
      → lookup user.id s.users ≡ some old
      → old.login ≡ user.login
      → IsUnique t
  replace-IsUnique s t user old unique same known kept = λ j k u v p q e.
      let case_j =
        insert_cases user.id j user u s.users (subst (λ d. lookup j d ≡ some u) same p) in
      let case_k =
        insert_cases user.id k user v s.users (subst (λ d. lookup k d ≡ some v) same q) in
      elim case_j [
        | inl (here, new) ↦ elim case_k [
          | inl (there, _) ↦ sym here ∙ there
          | inr older ↦
              sym here
              ∙ unique user.id k old v known older (kept ∙ ap (λ (x : User). x.login) new ∙ e)
        ]
        | inr older ↦ elim case_k [
          | inl (there, new) ↦
              unique j user.id u old older known (e ∙ sym (kept ∙ ap (λ (x : User). x.login) new))
              ∙ there
          | inr oldest ↦ unique j k u v older oldest e
        ]
      ]

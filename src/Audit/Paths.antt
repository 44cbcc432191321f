-- ===== src/Audit/Paths.antt =====
-- What a reader of redacted metadata finds (`_redact` of backend/app/services/audit_service.py).
use vpn_controll_app.Base.{
  ℕ, zero, suc, ◌==◌, ◌≡◌, ◌∙◌, sym, refl, ap, arith, inl, inr, Bool, true, false, String, Option,
  none, some, List, [], ◌∷◌, string_Eq, if◌then◌else◌, Bool-cases, Option-cases,
}
use vpn_controll_app.Domain.Json.{
  Value, null, bool, num, str, arr, obj, Items, nil, cons, Fields, end, field, get_field,
}
use vpn_controll_app.Audit.Redact.{is_sensitive, redact, redact_fields, redact_items}

-- A step of a path: to a key of a dict, or to a position of a list.
pub data Step : Type 0 where
  key : String → Step
  index : ℕ → Step

abbrev get_item : ℕ → Items → Option Value
get_item n nil = none
get_item zero (cons x xs) = some x
get_item (suc n) (cons x xs) = get_item n xs

abbrev blank_items : Items → Items
blank_items nil = nil
blank_items (cons x xs) = cons null (blank_items xs)

abbrev blank_fields : Fields → Fields
blank_fields end = end
blank_fields (field k v fs) = field k null (blank_fields fs)

-- A value without what its parts are: the keys of a dict, the length of a list, or all of it.
abbrev glance : Value → Value
glance (arr xs) = arr (blank_items xs)
glance (obj fs) = obj (blank_fields fs)
glance v = v

-- What stands at the end of a path, if the path leads anywhere.
abbrev pub look : List Step → Value → Option Value
look [] v = some (glance v)
look (key k ∷ p) (obj fs) = elim (get_field k fs) [ none ↦ none | some v ↦ look p v ]
look (index n ∷ p) (arr xs) = elim (get_item n xs) [ none ↦ none | some v ↦ look p v ]
look _ _ = none

-- The same, with the mark for whatever stands under a sensitive key.
abbrev pub masked : (String → String) → List Step → Value → Option Value
masked lower [] v = some (glance v)
masked lower (key k ∷ p) (obj fs) = elim (get_field k fs) [
  | none ↦ none
  | some v ↦ elim (is_sensitive lower k) [
    | true ↦ look p (str "[redacted]")
    | false ↦ masked lower p v
  ]
]
masked lower (index n ∷ p) (arr xs) = elim (get_item n xs) [
  | none ↦ none
  | some v ↦ masked lower p v
]
masked lower _ _ = none

blank_items-redact_items :
    (lower : String → String) (xs : Items) → blank_items (redact_items lower xs) ≡ blank_items xs
unfolding redact_items
blank_items-redact_items lower nil = refl
blank_items-redact_items lower (cons x xs) = ap (cons null) (blank_items-redact_items lower xs)

blank_fields-redact_fields :
    (lower : String → String) (fs : Fields)
    → blank_fields (redact_fields lower fs) ≡ blank_fields fs
unfolding redact_fields
blank_fields-redact_fields lower end = refl
blank_fields-redact_fields lower (field k v fs) =
    ap (field k null) (blank_fields-redact_fields lower fs)

glance-redact : (lower : String → String) (v : Value) → glance (redact lower v) ≡ glance v
unfolding redact
glance-redact lower null = refl
glance-redact lower (bool b) = refl
glance-redact lower (num n) = refl
glance-redact lower (str s) = refl
glance-redact lower (arr xs) = ap arr (blank_items-redact_items lower xs)
glance-redact lower (obj fs) = ap obj (blank_fields-redact_fields lower fs)

absent_field :
    (lower : String → String) (k : String) (fs : Fields)
    → get_field k fs ≡ none
    → get_field k (redact_fields lower fs) ≡ none
unfolding redact_fields
absent_field lower k end h = refl
absent_field lower k (field j v fs) h = elim (Bool-cases (j == k)) [
  | inl same ↦ cc (rw same at h)
  | inr other ↦ rw other (absent_field lower k fs (rw other at h))
]

present_field :
    (lower : String → String) (k : String) (fs : Fields) (v : Value)
    → get_field k fs ≡ some v
    → get_field k (redact_fields lower fs)
      ≡ some (if is_sensitive lower k then str "[redacted]" else redact lower v)
unfolding redact_fields
present_field lower k end v h = cc
present_field lower k (field j w fs) v h = elim (Bool-cases (j == k)) [
  | inl same ↦ ground (arith, string_Eq.is_equal_iff j k)
  | inr other ↦ rw other (present_field lower k fs v (rw other at h))
]

absent_item :
    (lower : String → String) (n : ℕ) (xs : Items)
    → get_item n xs ≡ none
    → get_item n (redact_items lower xs) ≡ none
unfolding redact_items
absent_item lower n nil h = refl
absent_item lower zero (cons x xs) h = cc
absent_item lower (suc n) (cons x xs) h = absent_item lower n xs h

present_item :
    (lower : String → String) (n : ℕ) (xs : Items) (v : Value)
    → get_item n xs ≡ some v
    → get_item n (redact_items lower xs) ≡ some (redact lower v)
unfolding redact_items
present_item lower n nil v h = cc
present_item lower zero (cons x xs) v h = ground arith
present_item lower (suc n) (cons x xs) v h = present_item lower n xs v h

-- One step of a path, once it is known what is there.
look_key :
    (k : String) (p : List Step) (fs : Fields) {found : Option Value}
    → get_field k fs ≡ found
    → look (key k ∷ p) (obj fs)
      ≡ elim found as (λ _. Option Value) [ none ↦ none | some v ↦ look p v ]
look_key k p fs h = ap (λ z. elim z as (λ _. Option Value) [ none ↦ none | some v ↦ look p v ]) h

look_index :
    (n : ℕ) (p : List Step) (xs : Items) {found : Option Value}
    → get_item n xs ≡ found
    → look (index n ∷ p) (arr xs)
      ≡ elim found as (λ _. Option Value) [ none ↦ none | some v ↦ look p v ]
look_index n p xs h = ap (λ z. elim z as (λ _. Option Value) [ none ↦ none | some v ↦ look p v ]) h

-- What is seen of a field, by whether its key is sensitive.
abbrev seen : (String → String) → List Step → Value → Bool → Option Value
seen lower p v b = elim b as (λ _. Option Value) [
  | true ↦ look p (str "[redacted]")
  | false ↦ masked lower p v
]

masked_key :
    (lower : String → String) (k : String) (p : List Step) (fs : Fields) {found : Option Value}
    → get_field k fs ≡ found
    → masked lower (key k ∷ p) (obj fs) ≡ elim found as (λ _. Option Value) [
      | none ↦ none
      | some v ↦ seen lower p v (is_sensitive lower k)
    ]
masked_key lower k p fs h =
    ap
      (λ z. elim z as (λ _. Option Value) [
        | none ↦ none
        | some v ↦ seen lower p v (is_sensitive lower k)
      ])
      h

masked_index :
    (lower : String → String) (n : ℕ) (p : List Step) (xs : Items) {found : Option Value}
    → get_item n xs ≡ found
    → masked lower (index n ∷ p) (arr xs)
      ≡ elim found as (λ _. Option Value) [ none ↦ none | some v ↦ masked lower p v ]
masked_index lower n p xs h =
    ap (λ z. elim z as (λ _. Option Value) [ none ↦ none | some v ↦ masked lower p v ]) h

-- Below a field, by whether its key is sensitive.
under :
    (lower : String → String) (p : List Step) (v : Value) (b : Bool)
    → look p (redact lower v) ≡ masked lower p v
    → look p (if b then str "[redacted]" else redact lower v) ≡ seen lower p v b
under lower p v true h = refl
under lower p v false h = h

-- At the end of any path through redacted metadata stands what stands there in the original, with
-- the mark for whatever is under a sensitive key: every other key, position and value is kept.
pub look-redact :
    (lower : String → String) (path : List Step) (value : Value)
    → look path (redact lower value) ≡ masked lower path value
unfolding redact
look-redact lower [] v = ap some (glance-redact lower v)
look-redact lower (key k ∷ p) (obj fs) = elim (Option-cases (get_field k fs)) [
  | inl absent ↦
      look_key k p (redact_fields lower fs) (absent_field lower k fs absent)
      ∙ sym (masked_key lower k p fs absent)
  | inr (v, here) ↦
      look_key k p (redact_fields lower fs) (present_field lower k fs v here)
      ∙ under lower p v (is_sensitive lower k) (look-redact lower p v)
      ∙ sym (masked_key lower k p fs here)
]
look-redact lower (index n ∷ p) (arr xs) = elim (Option-cases (get_item n xs)) [
  | inl absent ↦
      look_index n p (redact_items lower xs) (absent_item lower n xs absent)
      ∙ sym (masked_index lower n p xs absent)
  | inr (v, here) ↦
      look_index n p (redact_items lower xs) (present_item lower n xs v here)
      ∙ look-redact lower p v
      ∙ sym (masked_index lower n p xs here)
]
look-redact lower (key k ∷ p) null = refl
look-redact lower (key k ∷ p) (bool b) = refl
look-redact lower (key k ∷ p) (num n) = refl
look-redact lower (key k ∷ p) (str s) = refl
look-redact lower (key k ∷ p) (arr xs) = refl
look-redact lower (index n ∷ p) null = refl
look-redact lower (index n ∷ p) (bool b) = refl
look-redact lower (index n ∷ p) (num m) = refl
look-redact lower (index n ∷ p) (str s) = refl
look-redact lower (index n ∷ p) (obj fs) = refl

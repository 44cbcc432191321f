-- ===== src/Settings/Env.antt =====
-- `Settings.from_env` and the URL of the database (backend/app/core/config.py): from a dict of
-- environment variables, the `.env` file read before.
use Prim.Native.Char.{Char, code}
use text.Mathlib.Text.{starts_with}
use vpn_controll_app.Base.{
  ℕ, Bool, true, not, String, Option, none, some, List, [], ◌∷◌, ◌==◌, nat_Eq, string_Eq, concat,
  is_blank, is_empty, strip, remove_prefix, map, filter, any, if◌then◌else◌,
}
use vpn_controll_app.Dict.{Dict, lookup, insert, set_default}
use vpn_controll_app.Errors.{value_error}
use vpn_controll_app.Storage.Checked.{◌>>=◌, parsed}
use vpn_controll_app.Settings.Validate.{Network}
use vpn_controll_app.Storage.Action.{Result, ok, err}

pub record UrlParts : Type 0 where
  pub scheme : String
  pub netloc : String
  pub path : String
  pub query : String
  pub fragment : String

-- What `from_env` calls of Python: `int` and `float` are none where they raise, `float` in
-- microseconds; and of `urllib.parse`.
pub record Python : Type 0 where
  pub int : String → Option ℕ
  pub float : String → Option ℕ
  pub str : ℕ → String
  pub lower : String → String
  pub quote : String → String
  pub urlsplit : String → UrlParts
  pub urlunsplit : UrlParts → String
  pub parse_qsl : String → List (String × String)
  pub urlencode : Dict String String → String
  pub ip_network : String → Option Network
  pub is_fernet_key : String → Bool

abbrev pub Env : Type 0
Env = Dict String String

-- `value is None or value.strip() == ""`
unfoldable pub is_unset : Option String → Bool
is_unset none = true
is_unset (some v) = is_empty (strip v)

-- `x or None`, `x or d`, and `env.get(key, d)`.
abbrev pub or_none : Option String → Option String
or_none v = if is_blank v then none else v

abbrev pub or_default : Option String → String → String
or_default none d = d
or_default (some v) d = if is_empty v then d else v

abbrev pub get_or : String → String → Env → String
get_or key d env = elim (lookup key env) [ none ↦ d | some v ↦ v ]

-- A character put before the first part.
abbrev pub extend : Char → List String → List String
extend c [] = String.◌∷◌ c "" ∷ []
extend c (part ∷ parts) = String.◌∷◌ c part ∷ parts

-- `value.split(",")`
unfoldable pub split_comma : String → List String
split_comma String.[] = "" ∷ []
split_comma (String.◌∷◌ c s) =
    let parts = split_comma s in if code c == b',' then "" ∷ parts else extend c parts

-- `_csv`
unfoldable pub csv : Option String → List String → List String
unfolding is_unset split_comma
csv none default = default
csv (some v) default =
    if is_unset (some v)
    then default
    else map strip (filter (λ item. not (is_empty (strip item))) (split_comma v))

-- `dict(pairs)`
unfoldable pub dict_of : List (String × String) → Dict String String → Dict String String
dict_of [] d = d
dict_of ((k, v) ∷ rest) d = dict_of rest (insert k v d)

abbrev driver : String
driver = "postgresql+psycopg://"

-- `_normalize_database_url` of a value that is set.
unfoldable pub with_driver : String → String
unfolding remove_prefix
with_driver v =
    if starts_with v "postgresql://"
    then concat driver (remove_prefix "postgresql://" v)
    else if starts_with v "postgres://"
    then concat driver (remove_prefix "postgres://" v)
    else if starts_with v "postgresql+asyncpg://"
    then concat driver (remove_prefix "postgresql+asyncpg://" v)
    else v

unfoldable pub normalize_database_url : Option String → Option String
unfolding is_unset with_driver
normalize_database_url none = none
normalize_database_url (some v) = if is_unset (some v) then none else some (with_driver (strip v))

-- `", ".join(missing)`
unfoldable pub join_comma : List String → String
join_comma [] = ""
join_comma (x ∷ []) = x
join_comma (x ∷ y ∷ rest) = concat x (concat ", " (join_comma (y ∷ rest)))

abbrev db_keys : List String
db_keys = "DB_HOST" ∷ "DB_NAME" ∷ "DB_USER" ∷ "DB_PASSWORD" ∷ []

abbrev is_missing : Env → String → Bool
is_missing env key = is_blank (lookup key env)

module _ (py : Python) where
  -- `_bool`
  unfoldable pub parse_bool : Option String → Bool → Bool
  unfolding is_unset
  parse_bool none default = default
  parse_bool (some v) default =
      if is_unset (some v)
      then default
      else any (λ x. py.lower (strip v) == x) ("1" ∷ "true" ∷ "yes" ∷ "on" ∷ [])

  -- `_with_sslmode`
  unfoldable pub with_sslmode : String → String → String
  unfolding dict_of
  with_sslmode database_url sslmode =
      let parts = py.urlsplit database_url in
      let query = set_default "sslmode" sslmode (dict_of (py.parse_qsl parts.query) []) in
      py.urlunsplit (record parts { query = py.urlencode query })

  abbrev pub get_int : String → String → Env → Result ℕ
  get_int key d env = parsed (py.int (get_or key d env)) "invalid literal for int()"

  abbrev pub get_float : String → String → Env → Result ℕ
  get_float key d env = parsed (py.float (get_or key d env)) "could not convert string to float"

  abbrev pub db_port_of : Env → Result ℕ
  db_port_of env =
      parsed (py.int (or_default (lookup "DB_PORT" env) "5432")) "invalid literal for int()"

  abbrev pub sslmode_of : Env → String
  sslmode_of env = or_default (lookup "DB_SSLMODE" env) "require"

  -- The URL from its parts.
  unfoldable pub compose_url : Env → ℕ → String
  compose_url env port = concat driver (
      concat (py.quote (get_or "DB_USER" "" env)) (
        concat ":" (
          concat (py.quote (get_or "DB_PASSWORD" "" env)) (
            concat "@" (
              concat (get_or "DB_HOST" "" env) (
                concat ":" (
                  concat (py.str port) (
                    concat "/" (
                      concat (py.quote (get_or "DB_NAME" "" env))
                        (concat "?sslmode=" (py.quote (sslmode_of env))))))))))))

  -- `_build_database_url` where DATABASE_URL is not set.
  unfoldable pub build_from_parts : Env → Result (Option String)
  unfolding join_comma compose_url
  build_from_parts env =
      let missing = filter (is_missing env) db_keys in
      if not (any (λ key. not (is_missing env key)) db_keys)
      then ok none
      else if any (is_missing env) db_keys
      then err (value_error (concat "Для подключения к БД не хватает: " (join_comma missing)))
      else (db_port_of env >>= λ port. ok (some (compose_url env port)))

  unfoldable pub build_database_url : Env → Result (Option String)
  unfolding normalize_database_url with_sslmode build_from_parts
  build_database_url env = elim (normalize_database_url (lookup "DATABASE_URL" env)) [
    | some direct ↦ ok (some (with_sslmode direct (sslmode_of env)))
    | none ↦ build_from_parts env
  ]

-- ===== src/Accounts.antt =====
-- src/cryptovira/apps/accounts: the manager of users, their names, and registration. What they call
-- of Django is a parameter.
pub mod Users
pub mod Api
pub mod Registering
use Prim.Native.String.{◌++◌ as text_append}
use cryptovira.Prelude.{
  ℕ, String, ◌≡◌, ◌≢◌, refl, Bool, true, false, not, ◌⊎◌, Option, none, some, List, [], ◌∷◌, ◌++◌,
  any, str_eq, Bool-cases, inl, inr, if◌then◌else◌,
}
use cryptovira.Exec.{
  Exec, Result, ok, err, Error, value_error, validation_error, other_error, lift, pure,
  continue_lem, ◌>>=◌, ◌>>◌,
}
use cryptovira.Orm.{Orm, Stored}

-- the columns that the code writes; `password` is the hash
pub record User : Type 0 where
  pub email : String
  pub password : String
  pub first_name : String
  pub last_name : String
  pub is_active : Bool
  pub is_staff : Bool
  pub is_superuser : Bool

-- `email` is unique
abbrev pub same_email : User → User → Bool
same_email a b = str_eq a.email b.email

-- `**extra_fields`; a flag that is not given is `none`
pub record ExtraFields : Type 0 where
  pub first_name : String
  pub last_name : String
  pub is_staff : Option Bool
  pub is_superuser : Option Bool

-- `setdefault`
abbrev pub or_default : Option Bool → Bool → Bool
or_default none b = b
or_default (some a) b = a

abbrev or_else : String → String → String
or_else s t = if str_eq s "" then t else s

-- What is used of Django.
pub record Django : Type 1 where
  pub orm : Orm
  -- `BaseUserManager.normalize_email`
  pub normalize_email : String → String
  -- the hash that `set_password` stores; `None` makes an unusable one
  pub make_password : Option String → String
  -- `email__iexact`
  pub is_same_ignoring_case : String → String → Bool
  -- `validate_password(value, user)`; `none` if it raises nothing
  pub validate_password : String → User → Option String
  -- `text.strip()`
  pub strip : String → String

module _ (dj : Django) where
  abbrev pub UserTable : Type 0
  UserTable = dj.orm.Table User same_email

  inserted : Option (Stored User × UserTable) → Exec UserTable (Stored User)
  inserted none t = (err (other_error "IntegrityError"), t)
  inserted (some (u, t')) t = (ok u, t')

  -- `_create_user`; the flags have their values by then
  unfoldable pub create_user_with :
      String → Option String → String → String → Bool → Bool → Exec UserTable (Stored User)
  unfolding inserted
  create_user_with email password first_name last_name is_staff is_superuser t =
      if str_eq email ""
      then (err value_error, t)
      else inserted
          (dj.orm.create
            (record {
              email = dj.normalize_email email;
              password = dj.make_password password;
              first_name = first_name;
              last_name = last_name;
              is_active = true;
              is_staff = is_staff;
              is_superuser = is_superuser;
            })
            t)
          t

  -- `create_user`
  unfoldable pub create_user : String → Option String → ExtraFields → Exec UserTable (Stored User)
  create_user email password extra =
      create_user_with email password extra.first_name extra.last_name
        (or_default extra.is_staff false) (or_default extra.is_superuser false)

  -- `create_superuser`
  unfoldable pub create_superuser :
      String → Option String → ExtraFields → Exec UserTable (Stored User)
  create_superuser email password extra t =
      if not (or_default extra.is_staff true)
      then (err value_error, t)
      else if not (or_default extra.is_superuser true)
      then (err value_error, t)
      else create_user_with email password extra.first_name extra.last_name
          (or_default extra.is_staff true) (or_default extra.is_superuser true) t

  -- `get_full_name`, `get_short_name`, `clean`
  abbrev pub get_full_name : User → String
  get_full_name u =
      or_else (dj.strip (text_append u.first_name (text_append " " u.last_name))) u.email

  abbrev pub get_short_name : User → String
  get_short_name u = or_else u.first_name u.email

  abbrev pub clean : User → User
  clean u = record u { email = dj.normalize_email u.email }

  -- the user that `RegisterSerializer.validate_password` compares the password with
  abbrev pub dummy_user : String → String → String → User
  dummy_user email first_name last_name = record {
    email = email;
    password = "";
    first_name = first_name;
    last_name = last_name;
    is_active = true;
    is_staff = false;
    is_superuser = false;
  }

  -- `RegisterSerializer.validate_email`
  unfoldable pub validate_email : String → UserTable → Result String
  validate_email email t =
      if any (λ u. dj.is_same_ignoring_case u.row.email (dj.normalize_email email)) (dj.orm.rows t)
      then err (validation_error "A user with this email already exists.")
      else ok (dj.normalize_email email)

  abbrev validated : String → Option String → Result String
  validated password none = ok password
  validated password (some messages) = err (validation_error messages)

  -- `RegisterSerializer.validate_password`
  unfoldable pub check_password : String → User → Result String
  check_password password user = validated password (dj.validate_password password user)

  -- `RegisterView.create` up to the tokens: `is_valid` beyond what the declared fields check by
  -- themselves, of whose errors the first is kept, then `create` of the serializer
  unfoldable pub register : String → String → String → String → Exec UserTable (Stored User)
  unfolding validate_email check_password create_user
  register email password first_name last_name = do
    address ← (λ t. (validate_email email t, t))
    secret ← lift (check_password password (dummy_user email first_name last_name))
    create_user address (some secret) (record {
      first_name = first_name;
      last_name = last_name;
      is_staff = none;
      is_superuser = none;
    })

-- ===== src/Accounts/Api.antt =====
-- src/cryptovira/apps/accounts/api: the views, with the tokens that they give out and take back.
-- REST framework and simplejwt are parameters.
pub mod Session
use cryptovira.Prelude.{
  ℕ, String, ◌≡◌, ◌≢◌, Bool, true, false, ◌&&◌, not, Option, none, some, List, [], ◌∷◌, any, str_eq,
  if◌then◌else◌,
}
use cryptovira.Exec.{Exec, Result, ok, err, Error, other_error}
use cryptovira.Orm.{Orm, Stored}
use cryptovira.Accounts.{User, Django, UserTable, register}

-- What is used of simplejwt, with its table of blacklisted tokens.
pub record Jwt : Type 1 where
  pub Blacklist : Type 0
  -- the `jti` claim, which tells tokens apart
  pub jti : String → String
  -- `str(refresh)` and `str(refresh.access_token)` of `RefreshToken.for_user(user)`
  pub for_user : Stored User → Blacklist → (String × String) × Blacklist
  -- `RefreshToken(text)`; a text stands for the message of `TokenError`
  pub refused : String → Blacklist → Option String
  -- `token.blacklist()`
  pub blacklist : String → Blacklist → Blacklist
  -- A new token is accepted.
  pub for_user_law :
      (u : Stored User) (b : Blacklist) → refused (for_user u b).0.0 (for_user u b).1 ≡ none
  -- A blacklisted token is refused, and no other for it.
  pub blacklist_same :
      (t u : String) (b : Blacklist)
      → jti u ≡ jti t
      → (m : String) × (refused u (blacklist t b) ≡ some m)
  pub blacklist_other :
      (t u : String) (b : Blacklist) → jti u ≢ jti t → refused u (blacklist t b) ≡ refused u b

-- `UserSerializer(user).data`; the public identifier and the date are the database's
pub record Profile : Type 0 where
  pub email : String
  pub first_name : String
  pub last_name : String

-- `Response(...)` with its status: 201, 205, 400, 200
pub data Response : Type 0 where
  registered : (user : Profile) (access refresh : String) → Response
  reset_content : Response
  bad_request : (detail : String) → Response
  shown : (user : Profile) → Response

abbrev pub status_code : Response → ℕ
status_code (registered user access refresh) = 201
status_code reset_content = 205
status_code (bad_request detail) = 400
status_code (shown user) = 200

-- `permission_classes` of a view
pub data Permission : Type 0 where
  allow_any is_authenticated : Permission

pub data View : Type 0 where
  register_view logout_view me_view : View

abbrev pub permission_class : View → Permission
permission_class register_view = allow_any
permission_class logout_view = is_authenticated
permission_class me_view = is_authenticated

-- `UserSerializer.Meta`
abbrev pub profile_fields : List String
profile_fields = "uuid" ∷ "email" ∷ "first_name" ∷ "last_name" ∷ "date_joined" ∷ []

abbrev pub read_only_fields : List String
read_only_fields = "uuid" ∷ "email" ∷ "date_joined" ∷ []

-- a field that the serializer takes from a request
abbrev pub is_writable : String → Bool
is_writable name =
    any (λ f. str_eq f name) profile_fields && not (any (λ f. str_eq f name) read_only_fields)

abbrev pub profile : User → Profile
profile u = record { email = u.email; first_name = u.first_name; last_name = u.last_name }

module _ (dj : Django) (jwt : Jwt) where
  -- the users, and the blacklist
  pub record Site : Type 0 where
    pub users : UserTable dj
    pub tokens : jwt.Blacklist

  -- the end of `RegisterView.create`, from what the serializer's `save` did
  tokens_for : Result (Stored User) × UserTable dj → Site → Result Response × Site
  tokens_for (ok user, users) s =
      let ((refresh, access), tokens) = jwt.for_user user s.tokens in
      (
        ok (registered (profile user.row) access refresh),
        record s { users = users; tokens = tokens },
      )
  tokens_for (err e, users) s = (err e, record s { users = users })

  -- `RegisterView.create`; `raise_exception=True` raises what `register` raises
  unfoldable pub create_view : String → String → String → String → Exec Site Response
  unfolding tokens_for
  create_view email password first_name last_name s =
      tokens_for (register dj email password first_name last_name s.users) s

  revoked : Option String → String → Site → Result Response × Site
  revoked (some message) refresh s = (ok (bad_request message), s)
  revoked none refresh s = (ok reset_content, record s { tokens = jwt.blacklist refresh s.tokens })

  -- `LogoutView.post`
  unfoldable pub post_logout : String → Exec Site Response
  unfolding revoked
  post_logout refresh s = revoked (jwt.refused refresh s.tokens) refresh s

  -- `MeView.get_object`; an anonymous user is no `User`
  unfoldable pub get_object : Option (Stored User) → Result (Stored User)
  get_object none = err (other_error "AssertionError")
  get_object (some user) = ok user

-- ===== src/Accounts/Api/Session.antt =====
-- A session: its tokens are given out once, and taken back for good.
use cryptovira.Prelude.{
  String, ◌≡◌, refl, ◌∙◌, false, ◌⊎◌, inl, inr, Option, none, some, List, [], ◌∷◌, ◌++◌, str_eq,
  eq_iff, Bool-cases, Option-cases,
}
use cryptovira.Exec.{Result, ok, ok_same, err, Error}
use cryptovira.Orm.{Stored}
use cryptovira.Accounts.{User, Django, UserTable}
use cryptovira.Accounts.Users.{Created, register_cases}
use cryptovira.Accounts.Api.{
  Jwt, Site, Response, registered, bad_request, profile, tokens_for, create_view, post_logout,
  revoked,
}

module _ (dj : Django) (jwt : Jwt) where
  -- A registration was answered with the profile of the new user, who was added, and with a refresh
  -- token that is accepted.
  pub record Started (s : Site dj jwt) (password : String) (out : Result Response × Site dj jwt)
      : Type 0 where
    pub user : Stored User
    pub access : String
    pub refresh : String
    pub answer : out.0 ≡ ok (registered (profile user.row) access refresh)
    pub appended : dj.orm.rows out.1.users ≡ dj.orm.rows s.users ++ user ∷ []
    pub hashed : user.row.password ≡ dj.make_password (some password)
    pub no_staff : (user.row.is_staff ≡ false) × (user.row.is_superuser ≡ false)
    pub accepted : jwt.refused refresh out.1.tokens ≡ none

  started :
      (password : String) (s : Site dj jwt) (out : Result (Stored User) × UserTable dj)
      → Created dj s.users (some password) false false out
      → Started s password (tokens_for dj jwt out s)
  unfolding tokens_for
  started password s (err e, users) c = let h = c.returned in absurd (cc h)
  started password s (ok user, users) c =
      let same : user ≡ c.user = ok_same c.returned in
      record {
        user = user;
        access = (jwt.for_user user s.tokens).0.1;
        refresh = (jwt.for_user user s.tokens).0.0;
        answer = refl;
        appended = rw same c.appended;
        hashed = rw same c.hashed;
        no_staff = (rw same c.staff_flag, rw same c.superuser_flag);
        accepted = jwt.for_user_law user s.tokens;
      }

  -- A registration either raises and changes neither users nor tokens, or adds one user with
  -- neither flag and with the hash in place of the password, and answers with the profile of that
  -- user and a refresh token that is accepted.
  pub create_view-Started :
      (email password first_name last_name : String) (s : Site dj jwt)
      → ((e : Error) × (create_view dj jwt email password first_name last_name s ≡ (err e, s)))
        ⊎ Started s password (create_view dj jwt email password first_name last_name s)
  unfolding create_view
  create_view-Started email password first_name last_name s =
      elim (register_cases dj email password first_name last_name s.users) [
        | inl r ↦ inl (r.error, rw r.unchanged refl)
        | inr (c, _) ↦ inr (started password s _ c)
      ]

  -- Logouts with those tokens, one after another.
  abbrev pub log_out_all : List String → Site dj jwt → Site dj jwt
  log_out_all [] s = s
  log_out_all (t ∷ ts) s = log_out_all ts (post_logout dj jwt t s).1

  -- The token is refused.
  abbrev Ended : String → Site dj jwt → Type 0
  Ended refresh s = (message : String) × (jwt.refused refresh s.tokens ≡ some message)

  post_logout-Ended :
      (refresh other : String) (s : Site dj jwt)
      → Ended refresh s
      → Ended refresh (post_logout dj jwt other s).1
  unfolding post_logout
  post_logout-Ended refresh other s (message, gone) =
      elim (Option-cases (jwt.refused other s.tokens)) [
        | inr (m, refused) ↦ rw refused (message, gone)
        | inl accepted ↦ elim (Bool-cases (str_eq (jwt.jti refresh) (jwt.jti other))) [
          | inl e ↦ rw accepted (
              jwt.blacklist_same other refresh s.tokens
                ((eq_iff (jwt.jti refresh) (jwt.jti other)).0 e))
          | inr e ↦ rw accepted (
            message,
            jwt.blacklist_other other refresh s.tokens (λ same.
                  let told = (eq_iff (jwt.jti refresh) (jwt.jti other)).1 same in cc (told, e))
                ∙ gone,
          )
        ]
      ]

  log_out_all_users : (ts : List String) (s : Site dj jwt) → (log_out_all ts s).users ≡ s.users
  unfolding post_logout
  log_out_all_users [] s = refl
  log_out_all_users (t ∷ ts) s =
      log_out_all_users ts (post_logout dj jwt t s).1 ∙ kept (jwt.refused t s.tokens)
    where
      kept : (o : Option String) → (revoked dj jwt o t s).1.users ≡ s.users
      kept none = refl
      kept (some m) = refl

  log_out_all-Ended :
      (ts : List String) (refresh : String) (s : Site dj jwt)
      → Ended refresh s
      → Ended refresh (log_out_all ts s)
  log_out_all-Ended [] refresh s h = h
  log_out_all-Ended (t ∷ ts) refresh s h =
      log_out_all-Ended ts refresh _ (post_logout-Ended refresh t s h)

  -- A logout with an accepted refresh token ends its session for good: after any further logouts,
  -- with whatever tokens, a logout with it is answered by 400, and changes nothing. Logouts leave
  -- the users as they are.
  pub post_logout-for_good :
      (refresh : String) (s : Site dj jwt) (ts : List String)
      → jwt.refused refresh s.tokens ≡ none
      → let s' = log_out_all ts (post_logout dj jwt refresh s).1 in
        ((message : String) × (post_logout dj jwt refresh s' ≡ (ok (bad_request message), s')))
        × (s'.users ≡ s.users)
  unfolding post_logout
  post_logout-for_good refresh s ts h =
      let s' = (post_logout dj jwt refresh s).1 in
      let ended : Ended refresh s' = rw h (jwt.blacklist_same refresh refresh s.tokens refl) in
      let (message, gone) = log_out_all-Ended ts refresh s' ended in
      ((message, rw gone refl), log_out_all_users (refresh ∷ ts) s)

-- ===== src/Tests/Services.antt =====
-- The schedule, the settings, the probe and the accounts.
use cryptovira.Prelude.{
  All, String, ◌≡◌, ◌≢◌, refl, Bool, true, false, not, ◌⊎◌, inl, inr, some, none, List, [], ◌∷◌,
  select, any, Option, str_eq, eq_iff, eq_refl, Bool-cases,
}
use cryptovira.Exec.{ok, err, Error}
use cryptovira.Orm.Memory.{memory}
use cryptovira.Market.Models.{four_hours}
use cryptovira.Schedule.{Paired, beat_schedule-Paired}
use cryptovira.Settings.{
  Settings, default_settings, production, is_production_like, validate_settings,
}
use cryptovira.Accounts.{User}
use cryptovira.Orm.{Stored}
use cryptovira.Concurrent.{Pool, interleave, WhenDone}
use cryptovira.Accounts.Registering.{
  Registration, registrations, HasUnique, UsersKept, Registered, interleave-HasUnique,
}
use cryptovira.Accounts.Api.{Jwt, Site, create_view, post_logout, bad_request}
use cryptovira.Accounts.Api.Session.{
  Started, log_out_all, create_view-Started, post_logout-for_good,
}
use cryptovira.Settings.Deployment.{Hardened, django_settings, django_settings-Hardened}
use cryptovira.Accounts.{Django, UserTable, ExtraFields, create_superuser}
use cryptovira.Accounts.Users.{Refused, Created, create_superuser_cases}

beat_schedule-Paired_example : Paired four_hours
beat_schedule-Paired_example = beat_schedule-Paired four_hours

abbrev deployed : Settings
deployed = record default_settings {
  environment = production;
  secret_key = "x";
  allowed_hosts = "cryptovira.com" ∷ [];
  csrf_trusted_origins = "https://cryptovira.com" ∷ [];
}

abbrev hash : Option String → String
hash none = "!"
hash (some p) = "hashed"

abbrev django : Django
django = record {
  orm = memory;
  normalize_email = λ e. e;
  make_password = hash;
  is_same_ignoring_case = str_eq;
  validate_password = λ p u. none;
  strip = λ s. s;
}

abbrev nobody : UserTable django
nobody = record { contents = [] }

-- tokens that name themselves; a new one is taken off the blacklist
abbrev is_token : String → String → Bool
is_token t u = str_eq t u

abbrev refusal : Bool → Option String
refusal true = some "Token is blacklisted"
refusal false = none

fresh :
    (t : String) (b : List String) → any (is_token t) (select (λ u. not (is_token t u)) b) ≡ false
fresh t [] = refl
fresh t (u ∷ b) = elim (Bool-cases (is_token t u)) [
  | inl e ↦ rw e (fresh t b)
  | inr e ↦ rw e (rw e (fresh t b))
]

differs : (t u : String) → u ≢ t → is_token u t ≡ false
differs t u h = elim (Bool-cases (is_token u t)) [
  | inl e ↦ absurd (h ((eq_iff u t).0 e))
  | inr e ↦ e
]

abbrev jwt : Jwt
jwt = record {
  Blacklist = List String;
  jti = λ t. t;
  for_user = λ u b. (("refresh", "access"), select (λ t. not (is_token "refresh" t)) b);
  refused = λ t b. refusal (any (is_token t) b);
  blacklist = λ t b. t ∷ b;
  for_user_law = λ u b. rw (fresh "refresh" b) refl;
  blacklist_same = λ t u b same. ("Token is blacklisted", rw same (rw (eq_refl t) refl));
  blacklist_other = λ t u b other. rw (differs t u other) refl;
}

abbrev site : Site django jwt
site = record { users = nobody; tokens = [] }

create_view-Started_example :
    ((e : Error) × (create_view django jwt "a@b.c" "p" "A" "B" site ≡ (err e, site)))
    ⊎ Started django jwt site "p" (create_view django jwt "a@b.c" "p" "A" "B" site)
create_view-Started_example = create_view-Started django jwt "a@b.c" "p" "A" "B" site

-- a logout, then another session's, and the first one's again
abbrev logged_out : Site django jwt
logged_out =
    log_out_all django jwt ("other" ∷ "refresh" ∷ []) (post_logout django jwt "refresh" site).1

post_logout-for_good_example :
    ((message : String) × (post_logout django jwt "refresh" logged_out
        ≡ (ok (bad_request message), logged_out)))
    × (logged_out.users ≡ site.users)
post_logout-for_good_example =
    post_logout-for_good django jwt "refresh" site ("other" ∷ "refresh" ∷ []) refl

validate_deployed : validate_settings deployed ≡ ok deployed
unfolding validate_settings
validate_deployed = refl

abbrev no_extra : ExtraFields
no_extra = record { first_name = ""; last_name = ""; is_staff = none; is_superuser = none }

create_superuser_cases_example :
    Refused django nobody (create_superuser django "a@b.c" (some "p") no_extra nobody)
    ⊎ Created django nobody
        (some "p")
        true
        true
        (create_superuser django "a@b.c" (some "p") no_extra nobody)
create_superuser_cases_example = create_superuser_cases django "a@b.c" (some "p") no_extra nobody

django_settings-Hardened_example :
    (is_production_like production ≡ true → Hardened (django_settings deployed))
    × (is_production_like production ≡ false → (django_settings deployed).hardening ≡ none)
django_settings-Hardened_example = django_settings-Hardened deployed validate_deployed

-- the same address sent twice at once
abbrev twice : List Registration
twice =
    record { email = "a@b.c"; password = "p"; first_name = "A"; last_name = "B" }
    ∷ record { email = "a@b.c"; password = "q"; first_name = "C"; last_name = "D" }
    ∷ []

abbrev both_sent : Pool Registration (UserTable django) (Stored User)
both_sent = interleave (0 ∷ 1 ∷ 0 ∷ 1 ∷ 0 ∷ 1 ∷ []) (registrations django twice nobody)

interleave-HasUnique_example :
    HasUnique django both_sent.state
    × UsersKept django nobody both_sent.state
    × All (WhenDone (λ r. Registered django r both_sent.state)) both_sent.threads
interleave-HasUnique_example =
    interleave-HasUnique django twice (0 ∷ 1 ∷ 0 ∷ 1 ∷ 0 ∷ 1 ∷ []) nobody tt

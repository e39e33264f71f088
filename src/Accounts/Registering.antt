-- ===== src/Accounts/Registering.antt =====
-- Registrations at the same time: `RegisterSerializer` statement by statement. Between the query of
-- `validate_email` and the insertion others may register.
use mathlib.Core.List.{Memᴰ}
use mathlib.Core.List.Memᴰ
use cryptovira.Prelude.{
  ℕ, String, ◌≡◌, refl, ◌∙◌, subst, true, false, none, some, List, [], ◌∷◌, map, any, All, str_eq,
  Bool-cases, Option-cases, inl, inr,
}
use cryptovira.Exec.{Result, Result-cases, continue, Error, ok, err, lift}
use cryptovira.Orm.{Stored}
use cryptovira.Orm.Merge.{IsUnique}
use cryptovira.World.Matches.{contents}
use cryptovira.World.Queries.{append-IsUnique}
use cryptovira.System.Growth.{Continues, Continues-refl, Continues-kept, Continues-trans}
use cryptovira.Concurrent.{Code, Pool, run, done, interleave, ◌>>=◌, WhenDone}
use cryptovira.Concurrent.Safe.{Safe, AllSafe, passed, interleave-Safe, AllSafe-WhenDone}
use cryptovira.Concurrent.Growth.{Memᴰ-later}
use cryptovira.Accounts.{
  User, same_email, Django, UserTable, validate_email, check_password, dummy_user, create_user,
  create_user_with, register,
}

-- what is sent to the view
pub record Registration : Type 0 where
  pub email : String
  pub password : String
  pub first_name : String
  pub last_name : String

module _ (dj : Django) where
  unfoldable pub registering : Registration → Code (UserTable dj) (Stored User)
  registering r = do
    address ← (λ t. (validate_email dj r.email t, t))
    secret ← lift (check_password dj r.password (dummy_user dj r.email r.first_name r.last_name))
    user ← create_user dj address (some secret) (record {
      first_name = r.first_name;
      last_name = r.last_name;
      is_staff = none;
      is_superuser = none;
    })
    done user

  -- Alone it is `register`.
  registering-run :
      (r : Registration) (t : UserTable dj)
      → run (registering r) t ≡ register dj r.email r.password r.first_name r.last_name t
  unfolding run registering register
  registering-run r t = elim (Result-cases (validate_email dj r.email t)) [
    | inr (e, h) ↦ rw h refl
    | inl (address, h) ↦
        elim (Result-cases
          (check_password dj r.password (dummy_user dj r.email r.first_name r.last_name))) [
            | inr (e, k) ↦ rw (h, k) refl
            | inl (secret, k) ↦
                rw (h, k)
                  (ended (
                    create_user dj address (some secret)
                      (record {
                        first_name = r.first_name;
                        last_name = r.last_name;
                        is_staff = none;
                        is_superuser = none;
                      })
                      t))
          ]
  ]
    where
      ended : (out : Result (Stored User) × UserTable dj) → continue out (λ u t. (ok u, t)) ≡ out
      ended (ok u, t) = refl
      ended (err e, t) = refl

  abbrev pub registrations :
      List Registration → UserTable dj → Pool Registration (UserTable dj) (Stored User)
  registrations rs t = record { state = t; threads = map (λ r. (r, registering r)) rs }

  -- no two users have one address
  abbrev pub HasUnique : UserTable dj → Type 0
  HasUnique t = IsUnique same_email (contents (dj.orm.rows t))

  -- No user is changed or lost.
  abbrev pub UsersKept : UserTable dj → UserTable dj → Type 0
  UsersKept t t' = Continues (λ a b. b ≡ a) (dj.orm.rows t) (dj.orm.rows t')

  -- The user is stored, without either flag and with the hash in place of the password.
  pub record Registered (r : Registration) (t : UserTable dj) : Type 0 where
    pub user : Stored User
    pub kept : Memᴰ user (dj.orm.rows t)
    pub address : user.row.email ≡ dj.normalize_email (dj.normalize_email r.email)
    pub hashed : user.row.password ≡ dj.make_password (some r.password)
    pub not_staff : user.row.is_staff ≡ false
    pub not_superuser : user.row.is_superuser ≡ false

  UsersKept-refl : (t : UserTable dj) → UsersKept t t
  UsersKept-refl t = Continues-refl _ (λ x. refl) _

  UsersKept-trans : (s t u : UserTable dj) → UsersKept s t → UsersKept t u → UsersKept s u
  UsersKept-trans s t u g h = Continues-trans _ (λ x y z p q. q ∙ p) _ _ _ g h

  Registered-lasts :
      (r : Registration) (t t' : UserTable dj) → UsersKept t t' → Registered r t → Registered r t'
  Registered-lasts r t t' g h = record {
    user = h.user;
    kept = Memᴰ-later _ _ _ g h.kept;
    address = h.address;
    hashed = h.hashed;
    not_staff = h.not_staff;
    not_superuser = h.not_superuser;
  }

  address_of :
      (email : String) (t : UserTable dj) (a : String)
      → validate_email dj email t ≡ ok a
      → dj.normalize_email email ≡ a
  unfolding validate_email
  address_of email t a h =
      elim (Bool-cases (
        any (λ u. dj.is_same_ignoring_case u.row.email (dj.normalize_email email))
          (dj.orm.rows t))) [ inl e ↦ absurd (refused (rw e at h)) | inr e ↦ cc (rw e at h) ]
    where
      refused : {x : Error} → err x ≡ ok a → ⊥
      refused q = cc q

  secret_of :
      (password : String) (u : User) (s : String)
      → check_password dj password u ≡ ok s
      → password ≡ s
  unfolding check_password
  secret_of password u s h = elim (Option-cases (dj.validate_password password u)) [
    | inl e ↦ cc (rw e at h)
    | inr (m, e) ↦ absurd (refused (rw e at h))
  ]
    where
      refused : {x : Error} → err x ≡ ok s → ⊥
      refused q = cc q

  -- what the insertion keeps and does
  Inserts : Registration → String → String → UserTable dj → Type 0
  Inserts r address secret t =
      let out =
        create_user dj address (some secret)
          (record {
            first_name = r.first_name;
            last_name = r.last_name;
            is_staff = none;
            is_superuser = none;
          })
          t in
      HasUnique out.1 × UsersKept t out.1 × ((u : Stored User) → out.0 ≡ ok u → Registered r out.1)

  create_user-Inserts :
      (r : Registration) (t : UserTable dj)
      → HasUnique t
      → Inserts r (dj.normalize_email r.email) r.password t
  unfolding Inserts create_user create_user_with
  create_user-Inserts r t unique =
      let address = dj.normalize_email r.email in
      let new : User = record {
        email = dj.normalize_email address;
        password = dj.make_password (some r.password);
        first_name = r.first_name;
        last_name = r.last_name;
        is_active = true;
        is_staff = false;
        is_superuser = false;
      } in
      elim (Bool-cases (str_eq address "")) [
        | inl e ↦ rw e (unique, UsersKept-refl t, λ u h. absurd (cc h))
        | inr e ↦ elim (Bool-cases (any (λ s. same_email new s.row) (dj.orm.rows t))) [
          | inl taken ↦
              rw (e, dj.orm.create_taken_law new t taken)
                (unique, UsersKept-refl t, λ u h. absurd (cc h))
          | inr free ↦
              let (i, t', made, at) = dj.orm.create_free_law new t free in
              let user : Stored User = record { id = i; row = new } in
              rw (e, made)
                (
                  rw at (append-IsUnique same_email (dj.orm.rows t) user unique free),
                  Continues-kept _ (λ x. refl) _ _ (user ∷ []) at,
                  λ u _. record {
                    user = user;
                    kept = rw at (Memᴰ.append_right (dj.orm.rows t) (Memᴰ.head refl));
                    address = refl;
                    hashed = refl;
                    not_staff = refl;
                    not_superuser = refl;
                  },
                )
        ]
      ]

  -- any state of the table
  abbrev Any : UserTable dj → Type 0
  Any t = Unit {0}

  registering-Safe :
      (r : Registration) (t : UserTable dj)
      → Safe HasUnique UsersKept Any (Registered r) (registering r) t
  unfolding registering Inserts
  registering-Safe r t = λ a unique ga _. (
    unique,
    UsersKept-refl a,
    λ address checked. λ b unique gb _. (
      unique,
      UsersKept-refl b,
      λ secret accepted. λ c unique gc _.
          subst (λ x. Inserts r x secret c) (address_of r.email a address checked)
            (subst (λ x. Inserts r (dj.normalize_email r.email) x c)
              (secret_of r.password (dummy_user dj r.email r.first_name r.last_name) secret
                accepted)
              (create_user-Inserts r c unique)),
    ),
  )

  registrations-AllSafe :
      (rs : List Registration) (t : UserTable dj)
      → AllSafe HasUnique UsersKept Any UsersKept-refl UsersKept-trans Registered Registered-lasts
          (map (λ r. (r, registering r)) rs)
          t
  registrations-AllSafe [] t = tt
  registrations-AllSafe (r ∷ rs) t = (registering-Safe r t, registrations-AllSafe rs t)

  -- However many registrations run at the same time, and however their statements interleave, no two
  -- users have the same address, case included, every user that was stored is as it was, and each registration that has
  -- ended without an exception has its user in the table: with the address that was sent, normalised
  -- twice, with the hash of its password and with neither flag.
  pub interleave-HasUnique :
      (rs : List Registration) (is : List ℕ) (t : UserTable dj)
      → HasUnique t
      → HasUnique (interleave is (registrations rs t)).state
        × UsersKept t (interleave is (registrations rs t)).state
        × All
            (WhenDone (λ r. Registered r (interleave is (registrations rs t)).state))
            (interleave is (registrations rs t)).threads
  interleave-HasUnique rs is t unique =
      let ((end, kept), safe) =
        interleave-Safe HasUnique UsersKept Any UsersKept-refl UsersKept-trans Registered
          Registered-lasts is (registrations rs t) unique
          (passed HasUnique UsersKept Any UsersKept-refl UsersKept-trans Registered Registered-lasts
            is (registrations rs t) (λ k. tt))
          (registrations-AllSafe rs t) in
      (
        end,
        kept,
        AllSafe-WhenDone HasUnique UsersKept Any UsersKept-refl UsersKept-trans Registered
            Registered-lasts _ _ safe,
      )

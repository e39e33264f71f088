-- ===== src/Accounts/Users.antt =====
-- What creating a user leaves in the table.
use cryptovira.Prelude.{
  String, ◌≡◌, refl, Bool, true, false, ◌⊎◌, Option, none, some, [], ◌∷◌, ◌++◌, any, str_eq,
  Bool-cases, Option-cases, inl, inr,
}
use cryptovira.Exec.{Result, ok, err, Error}
use cryptovira.Orm.{Stored}
use cryptovira.Accounts.{
  User, same_email, ExtraFields, or_default, Django, UserTable, create_user_with, create_user,
  create_superuser, validate_email, check_password, dummy_user, register,
}

module _ (dj : Django) where
  abbrev Out : Type 0
  Out = Result (Stored User) × UserTable dj

  -- The call raised and left the table as it was.
  pub record Refused (t : UserTable dj) (out : Out) : Type 0 where
    pub error : Error
    pub unchanged : out ≡ (err error, t)

  -- The call returned a new user, which stands behind the stored ones: with those flags, and the
  -- hash of that password in place of the password.
  pub record Created (t : UserTable dj) (password : Option String) (staff superuser : Bool)
      (out : Out) : Type 0 where
    pub user : Stored User
    pub returned : out.0 ≡ ok user
    pub appended : dj.orm.rows out.1 ≡ dj.orm.rows t ++ user ∷ []
    pub hashed : user.row.password ≡ dj.make_password password
    pub staff_flag : user.row.is_staff ≡ staff
    pub superuser_flag : user.row.is_superuser ≡ superuser
    -- the unique index had no row with the new address
    pub free : any (λ s. same_email user.row s.row) (dj.orm.rows t) ≡ false

  module _ (email : String) (password : Option String) (first_name last_name : String)
      (staff superuser : Bool) (t : UserTable dj) where
    abbrev new_user : User
    new_user = record {
      email = dj.normalize_email email;
      password = dj.make_password password;
      first_name = first_name;
      last_name = last_name;
      is_active = true;
      is_staff = staff;
      is_superuser = superuser;
    }

    create_user_with-Created :
        str_eq email "" ≡ false
        → any (λ s. same_email new_user s.row) (dj.orm.rows t) ≡ false
        → Created t password staff superuser
            (create_user_with dj email password first_name last_name staff superuser t)
    unfolding create_user_with
    create_user_with-Created e h =
        let (i, t', made, at) = dj.orm.create_free_law new_user t h in
        rw (e, made)
          (record {
            user = record { id = i; row = new_user };
            returned = refl;
            appended = at;
            hashed = refl;
            staff_flag = refl;
            superuser_flag = refl;
            free = h;
          })

    create_user_with-cases :
        Refused t (create_user_with dj email password first_name last_name staff superuser t)
        ⊎ Created t password staff superuser
            (create_user_with dj email password first_name last_name staff superuser t)
    unfolding create_user_with
    create_user_with-cases = elim (Bool-cases (str_eq email "")) [
      | inl e ↦ rw e (inl (record { error = _; unchanged = refl }))
      | inr e ↦ elim (Bool-cases (any (λ s. same_email new_user s.row) (dj.orm.rows t))) [
        | inl h ↦
            rw (e, dj.orm.create_taken_law new_user t h)
              (inl (record { error = _; unchanged = refl }))
        | inr h ↦ inr (create_user_with-Created e h)
      ]
    ]

  -- A call of `create_superuser` either raises and leaves the table as it was, or adds one user, who
  -- has both flags whatever flags were passed, and whose stored password is the hash.
  pub create_superuser_cases :
      (email : String) (password : Option String) (extra : ExtraFields) (t : UserTable dj)
      → Refused t (create_superuser dj email password extra t)
        ⊎ Created t password true true (create_superuser dj email password extra t)
  unfolding create_superuser
  create_superuser_cases email password extra t =
      elim (Bool-cases (or_default extra.is_staff true)) [
        | inr e ↦ rw e (inl (record { error = _; unchanged = refl }))
        | inl e ↦ elim (Bool-cases (or_default extra.is_superuser true)) [
          | inr k ↦ rw (e, k) (inl (record { error = _; unchanged = refl }))
          | inl k ↦
              rw (e, k)
                (create_user_with-cases email password extra.first_name extra.last_name true true t)
        ]
      ]

  -- A registration either is refused and leaves the table as it was, or adds one user, who is
  -- neither staff nor superuser whatever was sent, and whose stored password is the hash; then no
  -- stored user had the address, be it in other case.
  pub register_cases :
      (email password first_name last_name : String) (t : UserTable dj)
      → Refused t (register dj email password first_name last_name t)
        ⊎ Created t (some password) false false (register dj email password first_name last_name t)
          × (any
                (λ u. dj.is_same_ignoring_case u.row.email (dj.normalize_email email))
                (dj.orm.rows t)
              ≡ false)
  unfolding register validate_email check_password create_user
  register_cases email password first_name last_name t =
      elim (Bool-cases (
        any (λ u. dj.is_same_ignoring_case u.row.email (dj.normalize_email email))
          (dj.orm.rows t))) [
            | inl e ↦ rw e (inl (record { error = _; unchanged = refl }))
            | inr e ↦
                elim (Option-cases
                  (dj.validate_password password (dummy_user dj email first_name last_name))) [
                    | inr (m, k) ↦ rw (e, k) (inl (record { error = _; unchanged = refl }))
                    | inl k ↦
                        rw (e, k)
                          (with_address refl (
                            create_user_with-cases (dj.normalize_email email) (some password)
                              first_name last_name false false t))
                  ]
          ]
    where
      with_address :
          {t : UserTable dj} {p : Option String} {out : Out} {P : Type 0}
          → P
          → Refused t out ⊎ Created t p false false out
          → Refused t out ⊎ Created t p false false out × P
      with_address h (inl r) = inl r
      with_address h (inr c) = inr (c, h)

  -- A registration with an address that is not empty once normalised and a password that the
  -- validators accept, where no stored user has the address, be it in other case, adds one user
  -- with neither flag, and with the hash in place of the password.
  register-Created :
      (email password first_name last_name : String) (t : UserTable dj)
      → str_eq (dj.normalize_email email) "" ≡ false
      → any (λ u. dj.is_same_ignoring_case u.row.email (dj.normalize_email email)) (dj.orm.rows t)
        ≡ false
      → dj.validate_password password (dummy_user dj email first_name last_name) ≡ none
      → any
          (λ u. str_eq (dj.normalize_email (dj.normalize_email email)) u.row.email)
          (dj.orm.rows t)
        ≡ false
      → Created t (some password) false false (register dj email password first_name last_name t)
  unfolding register validate_email check_password create_user
  register-Created email password first_name last_name t given unknown valid free =
      rw (unknown, valid)
        (create_user_with-Created (dj.normalize_email email) (some password) first_name last_name
          false false t given free)

-- ===== src/Organization/Accounts.antt =====
-- The change of a password, and the GSTIN of a profile.
use gst_ai_copilot.Base.{
  ℕ, ◌==◌, ◌≤◌, ◌≡◌, refl, sym, ap, subst, ◌∙◌, inl, inr, true, Bool-cases, Option, none, some,
  Option-cases, [], ◌∷◌, ◌++◌, Text, arith, Result-cases, ok, >>=-eq-ok, ok-inj, strip, lower, find,
  change, find-of-change, find-true, All, All-append, All-change, length, utf8_length, ltb,
}
use gst_ai_copilot.Gstin.{validate_gstin}
use gst_ai_copilot.Organization.{OrgRole, User, GstProfile, Db, Bcrypt, given_or}
use gst_ai_copilot.Organization.Service.{
  hash_password, verify_password, changed_password, update_profile, add_member, find_or_create_user,
  join, update_member, update_organization, upsert_gst_profile, written_profile, new_profile,
  of_org, set_setting,
}
use gst_ai_copilot.Organization.Admins.{
  Step, Steps, done, more, adds, updates, renames, registers, configures, edits,
}

pub hashed-verifies :
    (bcrypt : Bcrypt) (salt plain : Text) {hashed : Text}
    → ((p s : Text) → bcrypt.checkpw p (bcrypt.hashpw p s) ≡ some true)
    → hash_password bcrypt salt plain ≡ ok hashed
    → (utf8_length plain ≤ 72) × (verify_password bcrypt plain hashed ≡ true)
unfolding hash_password verify_password
hashed-verifies bcrypt salt plain {hashed} sound e =
    elim (Bool-cases (ltb 72 (utf8_length plain))) [
      | inl long ↦ absurd (ground arith)
      | inr short ↦
          let same : hashed ≡ bcrypt.hashpw plain salt = ground arith in
          (ground arith, rw (short, same) (rw (sound plain salt) refl))
    ]

-- What a change of password has checked.
pub record PasswordChange (bcrypt : Bcrypt) (current : Option Text) (plain old new : Text)
    : Type 0 where
  pub given : Text
  pub current_eq : current ≡ some given
  pub was_right : verify_password bcrypt given old ≡ true
  pub long_enough : 10 ≤ length plain
  pub short_enough : utf8_length plain ≤ 72
  pub verifies : verify_password bcrypt plain new ≡ true

changed-PasswordChange :
    (bcrypt : Bcrypt) (salt : Text) (current : Option Text) (plain old : Text) {new : Text}
    → ((p s : Text) → bcrypt.checkpw p (bcrypt.hashpw p s) ≡ some true)
    → changed_password bcrypt salt current (some plain) old ≡ ok new
    → PasswordChange bcrypt current plain old new
unfolding changed_password
changed-PasswordChange bcrypt salt none plain old sound e = cc
changed-PasswordChange bcrypt salt (some c) plain old {new} sound e =
    let hashed : hash_password bcrypt salt plain ≡ ok new = ground arith in
    let (short, verifies) = hashed-verifies bcrypt salt plain sound hashed in
    record {
      given = c;
      current_eq = refl;
      was_right = ground arith;
      long_enough = ground arith;
      short_enough = short;
      verifies = verifies;
    }

abbrev the_user : User → User
the_user u = u

-- A call of `update_profile` with a new password that succeeds was given the current password; the
-- new one has ten characters at least and 72 bytes at most, and it is the one that verifies then.
pub update_profile-PasswordChange :
    (bcrypt : Bcrypt) (salt : Text) (user : ℕ) (full_name current : Option Text) (plain : Text)
    (db : Db) {db' : Db}
    → ((p s : Text) → bcrypt.checkpw p (bcrypt.hashpw p s) ≡ some true)
    → update_profile bcrypt salt user full_name current (some plain) db ≡ ok db'
    → (before after : User) × (find (λ u. u.id == user) db.users ≡ some before)
      × (find (λ u. u.id == user) db'.users ≡ some after)
      × PasswordChange bcrypt current plain before.hashed_password after.hashed_password
unfolding update_profile
update_profile-PasswordChange bcrypt salt user full_name current plain db {db'} sound e =
    elim (Option-cases (find (λ u. u.id == user) db.users)) [
      | inl missing ↦ absurd (ground arith)
      | inr (u, there) ↦
          elim (Result-cases
            (changed_password bcrypt salt current (some plain) u.hashed_password)) [
              | inl (new, en) ↦
                  let write = λ (k : User). the_user (record k {
                    full_name = given_or full_name k.full_name;
                    hashed_password = new;
                  }) in
                  let users : db'.users ≡ change (λ k. k.id == user) write db.users =
                    ground arith in
                  let still = find-true (λ k. k.id == user) write db.users there in
                  (
                    u,
                    write u,
                    there,
                    subst (λ us. find (λ k. k.id == user) us ≡ some (write u)) (sym users)
                        (find-of-change (λ k. k.id == user) write db.users there still),
                    changed-PasswordChange bcrypt salt current plain u.hashed_password sound en,
                  )
              | inr (x, bad) ↦ absurd (ground arith)
            ]
    ]

-- The GSTIN of a profile as the validator accepts it.
abbrev pub IsRegistered : GstProfile → Type 0
IsRegistered p = (validate_gstin (some p.gstin)).is_valid ≡ true

registers-IsRegistered :
    (show : ℕ → Text) (org actor : ℕ) (gstin legal_name : Text) (trade_name : Option Text)
    (state_code registration_type : Text) (db : Db) {db' : Db}
    → upsert_gst_profile show org actor gstin legal_name trade_name state_code registration_type db
      ≡ ok db'
    → All IsRegistered db.profiles
    → All IsRegistered db'.profiles
unfolding upsert_gst_profile written_profile
registers-IsRegistered show org actor gstin legal_name trade_name state_code registration_type db
      {db'} e h =
    let valid : (validate_gstin (some gstin)).is_valid ≡ true = ground arith in
    let write = written_profile gstin legal_name trade_name state_code registration_type in
    elim (Option-cases (find (of_org org) db.profiles)) [
      | inl missing ↦
          let added : db'.profiles
              ≡ db.profiles ++ (write (new_profile org gstin legal_name) ∷ []) =
            ground arith in
          subst (All IsRegistered) (sym added) (All-append IsRegistered db.profiles _ h (valid, tt))
      | inr (p, there) ↦
          let changed : db'.profiles ≡ change (of_org org) write db.profiles = ground arith in
          subst (All IsRegistered) (sym changed) (
            All-change (of_org org) write IsRegistered IsRegistered (λ x hit r. valid) (λ x r. r)
              db.profiles h)
    ]

joined-profiles :
    (org user : ℕ) (role : OrgRole) (db : Db) {db' : Db}
    → join org user role db ≡ ok db'
    → db'.profiles ≡ db.profiles
unfolding join
joined-profiles org user role db e = ground arith

created-profiles :
    (bcrypt : Bcrypt) (salt email : Text) (full_name password : Option Text) (db : Db)
    {found : Db × User}
    → find_or_create_user bcrypt salt email full_name password db ≡ ok found
    → found.0.profiles ≡ db.profiles
unfolding find_or_create_user
created-profiles bcrypt salt email full_name password db e = ground arith

added-profiles :
    (bcrypt : Bcrypt) (salt : Text) (show : ℕ → Text) (org actor : ℕ) (address : Text)
    (role : OrgRole) (full_name password : Option Text) (db : Db) {db' : Db}
    → add_member bcrypt salt show org actor address role full_name password db ≡ ok db'
    → db'.profiles ≡ db.profiles
unfolding add_member
added-profiles bcrypt salt show org actor address role full_name password db {db'} h =
    let (found, e, k) =
      >>=-eq-ok (find_or_create_user bcrypt salt (strip (lower address)) full_name password db) _
        h in
    let (joined, e', k') = >>=-eq-ok (join org found.1.id role found.0) _ k in
    sym (ap (λ d. d.profiles) (ok-inj k'))
    ∙ (joined-profiles org found.1.id role found.0 e'
        ∙ created-profiles bcrypt salt (strip (lower address)) full_name password db e)

Step-IsRegistered :
    (bcrypt : Bcrypt) (show : ℕ → Text) {db db' : Db}
    → Step bcrypt show db db'
    → All IsRegistered db.profiles
    → All IsRegistered db'.profiles
unfolding set_setting update_member update_organization update_profile
Step-IsRegistered bcrypt show (adds salt org actor address role full_name password db db' e) h =
    subst (All IsRegistered)
      (sym (added-profiles bcrypt salt show org actor address role full_name password db e)) h
Step-IsRegistered bcrypt show (updates org actor i role is_active db db' e) h =
    let same : db'.profiles ≡ db.profiles = ground arith in subst (All IsRegistered) (sym same) h
Step-IsRegistered bcrypt show (renames org actor name legal_name db db' e) h =
    let same : db'.profiles ≡ db.profiles = ground arith in subst (All IsRegistered) (sym same) h
Step-IsRegistered bcrypt show
      (registers org actor gstin legal_name trade_name state_code registration_type db db' e) h =
    registers-IsRegistered show org actor gstin legal_name trade_name state_code registration_type
      db e h
Step-IsRegistered bcrypt show (configures org actor key value db) h = h
Step-IsRegistered bcrypt show (edits salt user full_name current_password new_password db db' e) h =
    let same : db'.profiles ≡ db.profiles = ground arith in subst (All IsRegistered) (sym same) h

-- If the validator accepts the GSTIN of each profile, it does so after any number of calls.
pub profiles-IsRegistered :
    (bcrypt : Bcrypt) (show : ℕ → Text) {db db' : Db}
    → Steps bcrypt show db db'
    → All IsRegistered db.profiles
    → All IsRegistered db'.profiles
profiles-IsRegistered bcrypt show (done db) h = h
profiles-IsRegistered bcrypt show (more before last) h =
    Step-IsRegistered bcrypt show last (profiles-IsRegistered bcrypt show before h)

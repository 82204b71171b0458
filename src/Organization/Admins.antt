-- ===== src/Organization/Admins.antt =====
-- An organization keeps an active administrator.
use gst_ai_copilot.Base.{
  ℕ, ◌≤◌, ◌==◌, ==_iff, ◌≡◌, sym, subst, inl, inr, Bool, Bool-cases, Option, List, Text, arith, ok,
}
use gst_ai_copilot.Organization.{OrgRole, Db, Bcrypt}
use gst_ai_copilot.Organization.Service.{
  update_member, add_member, update_organization, upsert_gst_profile, set_setting, update_profile,
}
use gst_ai_copilot.Organization.Counts.{
  admins, update_member-admins, change_member-other, add_member-admins,
}

-- One call that succeeds, of any organization and actor.
pub data Step (bcrypt : Bcrypt) (show : ℕ → Text) : Db → Db → Type 0 where
  adds :
      (salt : Text) (org actor : ℕ) (address : Text) (role : OrgRole)
      (full_name password : Option Text) (db db' : Db)
      → add_member bcrypt salt show org actor address role full_name password db ≡ ok db'
      → Step bcrypt show db db'
  updates :
      (org actor i : ℕ) (role : Option OrgRole) (is_active : Option Bool) (db db' : Db)
      → update_member show org actor i role is_active db ≡ ok db'
      → Step bcrypt show db db'
  renames :
      (org actor : ℕ) (name legal_name : Option Text) (db db' : Db)
      → update_organization show org actor name legal_name db ≡ ok db'
      → Step bcrypt show db db'
  registers :
      (org actor : ℕ) (gstin legal_name : Text) (trade_name : Option Text)
      (state_code registration_type : Text) (db db' : Db)
      → upsert_gst_profile show org actor gstin legal_name trade_name state_code registration_type
          db
        ≡ ok db'
      → Step bcrypt show db db'
  configures :
      (org actor : ℕ) (key : Text) (value : List (Text × Text)) (db : Db)
      → Step bcrypt show db (set_setting org actor key value db)
  edits :
      (salt : Text) (user : ℕ) (full_name current_password new_password : Option Text) (db db' : Db)
      → update_profile bcrypt salt user full_name current_password new_password db ≡ ok db'
      → Step bcrypt show db db'

pub data Steps (bcrypt : Bcrypt) (show : ℕ → Text) : Db → Db → Type 0 where
  done : (db : Db) → Steps bcrypt show db db
  more : {a b c : Db} → Steps bcrypt show a b → Step bcrypt show b c → Steps bcrypt show a c

renamed-members :
    (show : ℕ → Text) (org actor : ℕ) (name legal_name : Option Text) (db : Db) {db' : Db}
    → update_organization show org actor name legal_name db ≡ ok db'
    → db'.members ≡ db.members
unfolding update_organization
renamed-members show org actor name legal_name db h = ground arith

registered-members :
    (show : ℕ → Text) (org actor : ℕ) (gstin legal_name : Text) (trade_name : Option Text)
    (state_code registration_type : Text) (db : Db) {db' : Db}
    → upsert_gst_profile show org actor gstin legal_name trade_name state_code registration_type db
      ≡ ok db'
    → db'.members ≡ db.members
unfolding upsert_gst_profile
registered-members show org actor gstin legal_name trade_name state_code registration_type db h =
    ground arith

edited-members :
    (bcrypt : Bcrypt) (salt : Text) (user : ℕ)
    (full_name current_password new_password : Option Text) (db : Db) {db' : Db}
    → update_profile bcrypt salt user full_name current_password new_password db ≡ ok db'
    → db'.members ≡ db.members
unfolding update_profile
edited-members bcrypt salt user full_name current_password new_password db h = ground arith

Step-admins :
    (bcrypt : Bcrypt) (show : ℕ → Text) (other : ℕ) {db db' : Db}
    → Step bcrypt show db db'
    → 1 ≤ admins other db.members
    → 1 ≤ admins other db'.members
unfolding set_setting
Step-admins bcrypt show other (adds salt org actor address role full_name password db db' e) h =
    let more_admins =
      add_member-admins bcrypt salt show other org actor address role full_name password db e in
    omega arith
Step-admins bcrypt show other (updates org actor i role is_active db db' e) h =
    let (same, some_left) = update_member-admins show org actor i role is_active db e in
    elim (Bool-cases (org == other)) [
      | inl t ↦ subst (λ o. 1 ≤ admins o db'.members) ((==_iff org other).0 t) some_left
      | inr apart ↦ rw same (rw (change_member-other other org i role is_active db.members apart) h)
    ]
Step-admins bcrypt show other (renames org actor name legal_name db db' e) h =
    subst (λ ms. 1 ≤ admins other ms) (sym (renamed-members show org actor name legal_name db e)) h
Step-admins bcrypt show other
      (registers org actor gstin legal_name trade_name state_code registration_type db db' e) h =
    subst (λ ms. 1 ≤ admins other ms)
      (sym (
        registered-members show org actor gstin legal_name trade_name state_code registration_type
          db e))
      h
Step-admins bcrypt show other (configures org actor key value db) h = h
Step-admins bcrypt show other (edits salt user full_name current_password new_password db db' e) h =
    subst (λ ms. 1 ≤ admins other ms)
      (sym (edited-members bcrypt salt user full_name current_password new_password db e)) h

-- An organization that has an active administrator has one after any number of calls of the
-- service, whoever makes them and on whichever organizations.
pub admins_remain :
    (bcrypt : Bcrypt) (show : ℕ → Text) (org : ℕ) {db db' : Db}
    → Steps bcrypt show db db'
    → 1 ≤ admins org db.members
    → 1 ≤ admins org db'.members
admins_remain bcrypt show org (done db) h = h
admins_remain bcrypt show org (more before last) h =
    Step-admins bcrypt show org last (admins_remain bcrypt show org before h)

-- ===== src/Organization/Tests.antt =====
-- Two administrators, of whom one steps down; a stand-in for bcrypt keeps a password as it is.
use gst_ai_copilot.Base.{
  ℕ, ◌≤◌, ◌≡◌, refl, true, false, none, some, [], ◌∷◌, Text, codes, text_eq, text_eq_refl, ap,
  Result, ok, err, All, arith, strip, lstrip, is_space, upper, to_upper, utf8_length, find, ◌==◌,
}
use gst_ai_copilot.Gstin.{
  validate_gstin, validate_cleaned, match_gstin, is_state_code, compute_checksum, checksum_total,
  digit_of, char_of, but_last, last_char,
}
use gst_ai_copilot.Organization.{
  org_admin, viewer, User, Member, Db, Bcrypt, OrgError, last_admin, active_admin_count,
  would_remove_last_admin,
}
use gst_ai_copilot.Organization.Service.{
  update_member, member_views, change_member, upsert_gst_profile, update_profile, changed_password,
  hash_password, verify_password,
}
use gst_ai_copilot.Organization.Admins.{done, more, updates, registers, admins_remain}
use gst_ai_copilot.Organization.Counts.{admins}
use gst_ai_copilot.Organization.Accounts.{
  PasswordChange, update_profile-PasswordChange, IsRegistered, profiles-IsRegistered,
}

abbrev plain_bcrypt : Bcrypt
plain_bcrypt = record { hashpw = λ p s. p; checkpw = λ p h. some (text_eq p h) }

plain_bcrypt_sound : (p s : Text) → plain_bcrypt.checkpw p (plain_bcrypt.hashpw p s) ≡ some true
plain_bcrypt_sound p s = ap (λ b. some b) (text_eq_refl p)

abbrev show : ℕ → Text
show i = i ∷ []

abbrev admin : ℕ → Member
admin i = record { id = i; organization_id = 7; user_id = i; role = org_admin; is_active = true }

abbrev db0 : Db
db0 = record {
  companies = [];
  users =
      record {
        id = 1;
        email = codes "a@b.in";
        hashed_password = codes "old password";
        full_name = codes "Asha";
        is_active = true;
      }
      ∷ [];
  members = admin 1 ∷ admin 2 ∷ [];
  profiles = [];
  settings = [];
  audit = [];
  next_id = 9;
}

abbrev or_db0 : Result OrgError Db → Db
or_db0 (ok db) = db
or_db0 (err e) = db0

abbrev db1 : Db
db1 = or_db0 (update_member show 7 1 1 (some viewer) none db0)

steps_down : update_member show 7 1 1 (some viewer) none db0 ≡ ok db1
unfolding update_member find would_remove_last_admin active_admin_count member_views
steps_down = refl

last_one_stays : update_member show 7 1 2 none (some false) db1 ≡ err last_admin
unfolding update_member find would_remove_last_admin active_admin_count member_views change_member
last_one_stays = refl

two_admins : 1 ≤ admins 7 db0.members
unfolding active_admin_count member_views
two_admins = omega arith

admins_remain_example : 1 ≤ admins 7 db1.members
admins_remain_example =
    admins_remain plain_bcrypt show 7
      (more (done db0) (updates 7 1 1 (some viewer) none db0 db1 steps_down)) two_admins

abbrev gstin : Text
gstin = codes "27AAPFU0939F1ZV"

abbrev db2 : Db
db2 =
    or_db0 (upsert_gst_profile show 7 1 gstin (codes "Asha Traders") none [] (codes "regular") db1)

registered :
    upsert_gst_profile show 7 1 gstin (codes "Asha Traders") none [] (codes "regular") db1 ≡ ok db2
unfolding upsert_gst_profile validate_gstin validate_cleaned strip lstrip is_space upper to_upper
    match_gstin is_state_code compute_checksum checksum_total digit_of char_of but_last last_char
registered = refl

no_profiles : All IsRegistered db1.profiles
unfolding update_member find would_remove_last_admin active_admin_count member_views
no_profiles = tt

profiles-IsRegistered_example : All IsRegistered db2.profiles
profiles-IsRegistered_example =
    profiles-IsRegistered plain_bcrypt show
      (more (done db1)
        (registers 7 1 gstin (codes "Asha Traders") none [] (codes "regular") db1 db2 registered))
      no_profiles

abbrev db3 : Db
db3 = or_db0 (
    update_profile plain_bcrypt [] 1 none (some (codes "old password"))
      (some (codes "new password")) db0)

password_changes :
    update_profile plain_bcrypt [] 1 none
      (some (codes "old password"))
      (some (codes "new password"))
      db0
    ≡ ok db3
unfolding update_profile find changed_password hash_password verify_password text_eq utf8_length
password_changes = refl

update_profile-PasswordChange_example :
    (before after : User) × (find (λ u. u.id == 1) db0.users ≡ some before)
    × (find (λ u. u.id == 1) db3.users ≡ some after)
    × PasswordChange plain_bcrypt
        (some (codes "old password"))
        (codes "new password")
        before.hashed_password
        after.hashed_password
update_profile-PasswordChange_example =
    update_profile-PasswordChange plain_bcrypt [] 1 none (some (codes "old password"))
      (codes "new password") db0 plain_bcrypt_sound password_changes

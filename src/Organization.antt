-- ===== src/Organization.antt =====
-- backend/app/rules/org_membership.py, and the tables of backend/app/services/organization_service.py
-- (see Organization/Service.antt). A row's id is a number. Columns that the service neither reads
-- nor writes are left out.
pub mod Service
pub mod Counts
pub mod Admins
pub mod Accounts
mod Tests
use gst_ai_copilot.Base.{
  ℕ, suc, ◌==◌, Bool, true, false, Option, none, some, List, [], ◌∷◌, map, Text, ◌&&◌,
  if◌then◌else◌,
}

pub data OrgRole : Type 0 where
  super_admin org_admin accountant finance_manager analyst reviewer auditor viewer : OrgRole

-- `role in ADMIN_ROLES`
abbrev pub is_admin_role : OrgRole → Bool
is_admin_role super_admin = true
is_admin_role org_admin = true
is_admin_role accountant = false
is_admin_role finance_manager = false
is_admin_role analyst = false
is_admin_role reviewer = false
is_admin_role auditor = false
is_admin_role viewer = false

pub record MemberView : Type 0 where
  pub member_id : ℕ
  pub role : OrgRole
  pub is_active : Bool

abbrev pub is_active_admin : MemberView → Bool
is_active_admin m = m.is_active && is_admin_role m.role

unfoldable pub active_admin_count : List MemberView → ℕ
active_admin_count [] = 0
active_admin_count (m ∷ ms) =
    if is_active_admin m then suc (active_admin_count ms) else active_admin_count ms

-- `new if new is not None else old`
abbrev pub given_or {ℓ} : {A : Type ℓ} → Option A → A → A
given_or none old = old
given_or (some new) old = new

abbrev pub updated_view : ℕ → Option OrgRole → Option Bool → MemberView → MemberView
updated_view target new_role new_is_active m =
    if m.member_id == target
    then record {
      member_id = m.member_id;
      role = given_or new_role m.role;
      is_active = given_or new_is_active m.is_active;
    }
    else m

unfoldable pub would_remove_last_admin : List MemberView → ℕ → Option OrgRole → Option Bool → Bool
would_remove_last_admin members target new_role new_is_active =
    active_admin_count (map (updated_view target new_role new_is_active) members) == 0

pub record User : Type 0 where
  pub id : ℕ
  pub email : Text
  pub hashed_password : Text
  pub full_name : Text
  pub is_active : Bool

pub record Member : Type 0 where
  pub id : ℕ
  pub organization_id : ℕ
  pub user_id : ℕ
  pub role : OrgRole
  pub is_active : Bool

pub record Company : Type 0 where
  pub id : ℕ
  pub name : Text
  pub legal_name : Option Text

pub record GstProfile : Type 0 where
  pub organization_id : ℕ
  pub gstin : Text
  pub legal_name : Text
  pub trade_name : Option Text
  pub state_code : Text
  pub registration_type : Text
  pub is_verified : Bool

-- A setting's value is the JSON object's keys with the text of their values.
pub record Setting : Type 0 where
  pub organization_id : ℕ
  pub key : Text
  pub value : List (Text × Text)

pub record AuditEntry : Type 0 where
  pub organization_id : ℕ
  pub actor_user_id : ℕ
  pub action : Text
  pub entity_type : Text
  pub entity : Text

pub record Db : Type 0 where
  pub companies : List Company
  pub users : List User
  pub members : List Member
  pub profiles : List GstProfile
  pub settings : List Setting
  pub audit : List AuditEntry
  pub next_id : ℕ

pub data OrgError : Type 0 where
  organization_not_found member_not_found user_not_found invalid_gstin : OrgError
  account_fields_required password_too_short password_too_long already_member : OrgError
  last_admin wrong_password : OrgError

-- The library bcrypt on texts: `hashpw(password, salt)`, and `checkpw(password, hash)`, where `none`
-- is a `ValueError`.
pub record Bcrypt : Type 0 where
  pub hashpw : Text → Text → Text
  pub checkpw : Text → Text → Option Bool

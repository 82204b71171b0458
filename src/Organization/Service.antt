-- ===== src/Organization/Service.antt =====
-- backend/app/services/organization_service.py and backend/app/security/passwords.py: one function
-- per method that changes the database. Audit entries are kept without their metadata.
use gst_ai_copilot.Base.{
  find, change, ℕ, suc, ◌==◌, ltb, Bool, true, false, not, Option, none, some, List, [], ◌∷◌, ◌++◌,
  map, select, Text, codes, text_eq, strip, lower, is_empty, length, utf8_length, Result, ok, err,
  ◌>>=◌, ◌>>◌, raise_if, ◌&&◌, ◌||◌, if◌then◌else◌,
}
use gst_ai_copilot.Gstin.{validate_gstin}
use gst_ai_copilot.Organization.{
  OrgRole, MemberView, would_remove_last_admin, given_or, User, Member, GstProfile, Setting, Db,
  Bcrypt, OrgError, organization_not_found, member_not_found, user_not_found, invalid_gstin,
  account_fields_required, password_too_short, password_too_long, already_member, last_admin,
  wrong_password,
}

-- `hash_password`; more than 72 bytes are a `ValueError`.
unfoldable pub hash_password : Bcrypt → Text → Text → Result OrgError Text
hash_password bcrypt salt plain =
    if ltb 72 (utf8_length plain) then err password_too_long else ok (bcrypt.hashpw plain salt)

abbrev true_or_none : Option Bool → Bool
true_or_none none = false
true_or_none (some b) = b

-- `verify_password`
unfoldable pub verify_password : Bcrypt → Text → Text → Bool
verify_password bcrypt plain hashed =
    if ltb 72 (utf8_length plain) then false else true_or_none (bcrypt.checkpw plain hashed)

abbrev pub log_audit : ℕ → ℕ → Text → Text → Text → Db → Db
log_audit org actor action entity_type entity db = record db {
  audit =
      db.audit
      ++ (record {
        organization_id = org;
        actor_user_id = actor;
        action = action;
        entity_type = entity_type;
        entity = entity;
      }
          ∷ []);
}

-- `update_organization`
unfoldable pub update_organization :
    (ℕ → Text) → ℕ → ℕ → Option Text → Option Text → Db → Result OrgError Db
update_organization show org actor name legal_name db =
    elim (find (λ c. c.id == org) db.companies) [
      | none ↦ err organization_not_found
      | some c ↦ ok (
          log_audit org actor (codes "organization.update") (codes "organization") (show org)
            (record db {
              companies =
                  change (λ c. c.id == org)
                    (λ c. record c {
                      name = given_or name c.name;
                      legal_name = elim legal_name [ none ↦ c.legal_name | some l ↦ some l ];
                    })
                    db.companies;
            }))
    ]

abbrev text_or : Text → Text → Text
text_or t d = if is_empty t then d else t

abbrev or_blank : Option Text → Text
or_blank none = []
or_blank (some t) = t

unfoldable pub written_profile : Text → Text → Option Text → Text → Text → GstProfile → GstProfile
written_profile gstin legal_name trade_name state_code registration_type p = record p {
  gstin = gstin;
  legal_name = legal_name;
  trade_name = trade_name;
  state_code = text_or state_code (or_blank (validate_gstin (some gstin)).state_code);
  registration_type = registration_type;
  is_verified = false;
}

abbrev pub new_profile : ℕ → Text → Text → GstProfile
new_profile org gstin legal_name = record {
  organization_id = org;
  gstin = gstin;
  legal_name = legal_name;
  trade_name = none;
  state_code = [];
  registration_type = [];
  is_verified = false;
}

abbrev pub of_org : ℕ → GstProfile → Bool
of_org org p = p.organization_id == org

abbrev put_profile : ℕ → Text → Text → (GstProfile → GstProfile) → List GstProfile → List GstProfile
put_profile org gstin legal_name write profiles = elim (find (of_org org) profiles) [
  | none ↦ profiles ++ (write (new_profile org gstin legal_name) ∷ [])
  | some p ↦ change (of_org org) write profiles
]

-- `upsert_gst_profile`
unfoldable pub upsert_gst_profile :
    (ℕ → Text) → ℕ → ℕ → Text → Text → Option Text → Text → Text → Db → Result OrgError Db
upsert_gst_profile show org actor gstin legal_name trade_name state_code registration_type db = do
  raise_if (not (validate_gstin (some gstin)).is_valid) invalid_gstin
  ok (
      log_audit org actor (codes "organization.gst_profile.upsert") (codes "gst_profile") (show org)
        (record db {
          profiles =
              put_profile org gstin legal_name
                (written_profile gstin legal_name trade_name state_code registration_type)
                db.profiles;
        }))

abbrev pub view : Member → MemberView
view m = record { member_id = m.id; role = m.role; is_active = m.is_active }

-- `_member_views` of the organization
unfoldable pub member_views : ℕ → List Member → List MemberView
member_views org members = map view (select (λ m. m.organization_id == org) members)

abbrev pub min_password_len : ℕ
min_password_len = 10

abbrev given : Option Text → Result OrgError Text
given none = err account_fields_required
given (some t) = if is_empty t then err account_fields_required else ok t

-- The user with the address, created if there is none.
unfoldable pub find_or_create_user :
    Bcrypt → Text → Text → Option Text → Option Text → Db → Result OrgError (Db × User)
find_or_create_user bcrypt salt email full_name password db =
    elim (find (λ u. text_eq u.email email) db.users) [
      | some u ↦ ok (db, u)
      | none ↦ do
        name ← given full_name
        plain ← given password
        raise_if (ltb (length plain) min_password_len) password_too_short
        hashed ← hash_password bcrypt salt plain
        let user : User = record {
          id = db.next_id;
          email = email;
          hashed_password = hashed;
          full_name = name;
          is_active = true;
        }
        ok (record db { users = db.users ++ (user ∷ []); next_id = suc db.next_id }, user)
    ]

abbrev pub is_membership : ℕ → ℕ → Member → Bool
is_membership org user m = (m.organization_id == org) && (m.user_id == user)

-- A member of the organization again, or a new one.
unfoldable pub join : ℕ → ℕ → OrgRole → Db → Result OrgError Db
join org user role db = elim (find (is_membership org user) db.members) [
  | none ↦ ok (record db {
    members =
        db.members
        ++ (record {
          id = db.next_id;
          organization_id = org;
          user_id = user;
          role = role;
          is_active = true;
        }
            ∷ []);
    next_id = suc db.next_id;
  })
  | some m ↦ do
    raise_if m.is_active already_member
    ok (record db {
      members =
          change (is_membership org user) (λ k. record k { is_active = true; role = role })
            db.members;
    })
]

-- `add_member`
unfoldable pub add_member :
    Bcrypt
    → Text
    → (ℕ → Text)
    → ℕ
    → ℕ
    → Text
    → OrgRole
    → Option Text
    → Option Text
    → Db
    → Result OrgError Db
add_member bcrypt salt show org actor address role full_name password db = do
  let email = strip (lower address)
  found ← find_or_create_user bcrypt salt email full_name password db
  joined ← join org found.1.id role found.0
  ok (
      log_audit org actor (codes "organization.member.add") (codes "organization_member")
        (show found.1.id) joined)

abbrev pub is_member : ℕ → ℕ → Member → Bool
is_member org i m = (m.id == i) && (m.organization_id == org)

abbrev pub changed_member : Option OrgRole → Option Bool → Member → Member
changed_member role is_active m = record m {
  role = given_or role m.role;
  is_active = given_or is_active m.is_active;
}

-- The rows of the member; an id belongs to one row.
unfoldable pub change_member : ℕ → ℕ → Option OrgRole → Option Bool → List Member → List Member
change_member org i role is_active ms =
    map (λ m. if is_member org i m then changed_member role is_active m else m) ms

-- `update_member`
unfoldable pub update_member :
    (ℕ → Text) → ℕ → ℕ → ℕ → Option OrgRole → Option Bool → Db → Result OrgError Db
update_member show org actor i role is_active db = elim (find (is_member org i) db.members) [
  | none ↦ err member_not_found
  | some m ↦ do
    raise_if (would_remove_last_admin (member_views org db.members) i role is_active) last_admin
    ok (
        log_audit org actor (codes "organization.member.update") (codes "organization_member")
          (show i) (record db { members = change_member org i role is_active db.members }))
]

abbrev is_setting : ℕ → Text → Setting → Bool
is_setting org key s = (s.organization_id == org) && text_eq s.key key

-- `set_setting`
unfoldable pub set_setting : ℕ → ℕ → Text → List (Text × Text) → Db → Db
set_setting org actor key value db =
    log_audit org actor (codes "organization.setting.update") (codes "system_setting") key
      (record db {
        settings = elim (find (is_setting org key) db.settings) [
          | none ↦ db.settings ++ (record { organization_id = org; key = key; value = value } ∷ [])
          | some s ↦ change (is_setting org key) (λ s. record s { value = value }) db.settings
        ];
      })

-- The stored hash after `update_profile`.
unfoldable pub changed_password :
    Bcrypt → Text → Option Text → Option Text → Text → Result OrgError Text
changed_password bcrypt salt current none hashed = ok hashed
changed_password bcrypt salt current (some plain) hashed = do
  raise_if
      (elim current [ none ↦ true | some c ↦ is_empty c || not (verify_password bcrypt c hashed) ])
      wrong_password
  raise_if (ltb (length plain) min_password_len) password_too_short
  hash_password bcrypt salt plain

-- `update_profile`
unfoldable pub update_profile :
    Bcrypt → Text → ℕ → Option Text → Option Text → Option Text → Db → Result OrgError Db
update_profile bcrypt salt user full_name current_password new_password db =
    elim (find (λ u. u.id == user) db.users) [
      | none ↦ err user_not_found
      | some u ↦ do
        hashed ← changed_password bcrypt salt current_password new_password u.hashed_password
        ok (record db {
          users =
              change (λ k. k.id == user)
                (λ k. record k {
                  full_name = given_or full_name k.full_name;
                  hashed_password = hashed;
                })
                db.users;
        })
    ]

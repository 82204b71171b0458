-- ===== src/Auth/Service.antt =====
-- backend/app/services/auth_service.py: the methods of `AuthService`, with the tokens of
-- backend/app/security/jwt.py.
use gst_ai_copilot.Base.{
  ℕ, suc, ◌+◌, ◌==◌, Bool, true, false, not, ◌&&◌, Option, none, some, List, [], ◌∷◌, ◌++◌, map,
  select, any, find, Text, codes, text_eq, lower, Result, ok, err, ◌>>=◌, ◌>>◌, raise_if,
  if◌then◌else◌,
}
use gst_ai_copilot.Organization.{
  OrgRole, super_admin, org_admin, accountant, finance_manager, analyst, reviewer, auditor, viewer,
  User, Member, AuditEntry, Bcrypt,
}
use gst_ai_copilot.Organization.Service.{hash_password, verify_password}
use gst_ai_copilot.Books.Chart.{ensure_chart_of_accounts}
use gst_ai_copilot.Auth.{
  Db, TokenType, access, refresh, TokenPayload, Jwt, AuthError, email_taken, invalid_credentials,
  deactivated, no_membership, not_a_member, organization_required, bad_token, wrong_token_type,
  no_longer_active, malformed_id, bad_password, chart_failed,
}
use gst_ai_copilot.Auth.Slugs.{slugify, find_slug}

-- What a call draws at random: a fallback for the slug and a salt.
pub record Draws : Type 0 where
  pub fallback : Text
  pub salt : Text

abbrev logged : (ℕ → Text) → ℕ → ℕ → Text → Text → ℕ → AuditEntry
logged show org actor action entity_type entity = record {
  organization_id = org;
  actor_user_id = actor;
  action = action;
  entity_type = entity_type;
  entity = show entity;
}

abbrev pub new_user : Text → Text → Text → ℕ → User
new_user email hashed full_name id = record {
  id = id;
  email = lower email;
  hashed_password = hashed;
  full_name = full_name;
  is_active = true;
}

-- The first administrator: the user and the organization have the two ids before the membership.
abbrev pub new_admin : ℕ → Member
new_admin user = record {
  id = user + 2;
  organization_id = suc user;
  user_id = user;
  role = org_admin;
  is_active = true;
}

-- The rows of a registration: the user, the organization and the membership have the next ids.
unfoldable pub registered : (ℕ → Text) → Text → Text → Text → Text → Text → Db → Db
registered show email hashed full_name organization_name slug db =
    let user_id = db.next_id in
    let org_id = suc db.next_id in
    record db {
      users = db.users ++ (new_user email hashed full_name user_id ∷ []);
      organizations =
          db.organizations ++ (record { id = org_id; name = organization_name; slug = slug } ∷ []);
      members = db.members ++ (new_admin user_id ∷ []);
      audit =
          db.audit
          ++ (logged show org_id user_id (codes "auth.register") (codes "organization") org_id
              ∷ []);
      next_id = db.next_id + 3;
    }

abbrev pub hashed_or : Bcrypt → Text → Text → Result AuthError Text
hashed_or bcrypt salt password = elim (hash_password bcrypt salt password) [
  | ok h ↦ ok h
  | err e ↦ err (bad_password e)
]

abbrev pub chart_or : ℕ → Db → Result AuthError Db
chart_or org db = elim (ensure_chart_of_accounts org db.books) [
  | ok books ↦ ok (record db { books = books })
  | err e ↦ err (chart_failed e)
]

-- `register`, on fuel for the loop over slugs: none is a loop that has not ended.
unfoldable pub register :
    Bcrypt → (ℕ → Text) → Draws → ℕ → Text → Text → Text → Text → Db → Option (Result AuthError Db)
register bcrypt show draws fuel email password full_name organization_name db =
    if any (λ u. text_eq u.email (lower email)) db.users
    then some (err email_taken)
    else elim (find_slug fuel (map (λ o. o.slug) db.organizations)
        (slugify draws.fallback organization_name) 1 (slugify draws.fallback organization_name)) [
          | none ↦ none
          | some slug ↦ some (do
            hashed ← hashed_or bcrypt draws.salt password
            chart_or (suc db.next_id)
                (registered show email hashed full_name organization_name slug db))
        ]

-- `[m for m in user.memberships if m.is_active]`
unfoldable pub active_memberships : ℕ → Db → List Member
active_memberships user db = select (λ m. (m.user_id == user) && m.is_active) db.members

-- The membership of a login.
unfoldable pub choose_membership : Option ℕ → List Member → Result AuthError Member
choose_membership org [] = err no_membership
choose_membership (some org) (m ∷ ms) = elim (find (λ k. k.organization_id == org) (m ∷ ms)) [
  | none ↦ err not_a_member
  | some k ↦ ok k
]
choose_membership none (m ∷ []) = ok m
choose_membership none (m ∷ k ∷ ms) = err organization_required

-- The audit entry of a login.
abbrev pub logged_in : (ℕ → Text) → User → Member → Db → Db
logged_in show u m db = record db {
  audit =
      db.audit
      ++ (logged show m.organization_id u.id (codes "auth.login") (codes "user") u.id ∷ []);
}

-- `authenticate`
unfoldable pub authenticate :
    Bcrypt → (ℕ → Text) → Text → Text → Option ℕ → Db → Result AuthError (Db × User × Member)
authenticate bcrypt show email password org db =
    elim (find (λ u. text_eq u.email (lower email)) db.users) [
      | none ↦ err invalid_credentials
      | some u ↦ do
        raise_if (not (verify_password bcrypt password u.hashed_password)) invalid_credentials
        raise_if (not u.is_active) deactivated
        m ← choose_membership org (active_memberships u.id db)
        ok (logged_in show u m db, u, m)
    ]

-- `role.value`
unfoldable pub role_value : OrgRole → Text
role_value super_admin = codes "super_admin"
role_value org_admin = codes "org_admin"
role_value accountant = codes "accountant"
role_value finance_manager = codes "finance_manager"
role_value analyst = codes "analyst"
role_value reviewer = codes "reviewer"
role_value auditor = codes "auditor"
role_value viewer = codes "viewer"

-- The payloads of `create_access_token` and `create_refresh_token`.
unfoldable pub access_payload : (ℕ → Text) → User → Member → TokenPayload
access_payload show u m = record {
  sub = show u.id;
  token_type = access;
  org_id = some (show m.organization_id);
  role = some (role_value m.role);
}

unfoldable pub refresh_payload : (ℕ → Text) → User → TokenPayload
refresh_payload show u = record {
  sub = show u.id;
  token_type = refresh;
  org_id = none;
  role = none;
}

-- `issue_tokens`
unfoldable pub issue_tokens : Jwt → (ℕ → Text) → User → Member → Text × Text
issue_tokens jwt show u m =
    (jwt.encode (access_payload show u m), jwt.encode (refresh_payload show u))

abbrev pub same_type : TokenType → TokenType → Bool
same_type access access = true
same_type refresh refresh = true
same_type access refresh = false
same_type refresh access = false

-- `decode_token`
unfoldable pub decode_token : Jwt → Text → TokenType → Result AuthError TokenPayload
decode_token jwt token expected = elim (jwt.decode token) [
  | none ↦ err bad_token
  | some p ↦ if same_type p.token_type expected then ok p else err wrong_token_type
]

abbrev pub first_membership : List Member → Result AuthError Member
first_membership [] = err no_membership
first_membership (m ∷ ms) = ok m

abbrev pub id_of : Option ℕ → Result AuthError ℕ
id_of none = err malformed_id
id_of (some i) = ok i

-- Any exception of the decoding is the same error for the caller.
abbrev pub or_bad_token : Result AuthError TokenPayload → Result AuthError TokenPayload
or_bad_token (ok p) = ok p
or_bad_token (err e) = err bad_token

-- `refresh_access_token` from the user's id on.
abbrev pub refresh_for : Jwt → (ℕ → Text) → ℕ → Db → Result AuthError (Text × Text)
refresh_for jwt show user_id db = elim (find (λ u. u.id == user_id) db.users) [
  | none ↦ err no_longer_active
  | some u ↦ do
    raise_if (not u.is_active) no_longer_active
    m ← first_membership (active_memberships u.id db)
    ok (issue_tokens jwt show u m)
]

-- `refresh_access_token`; `parse` is `uuid.UUID` on a text.
unfoldable pub refresh_access_token :
    Jwt → (ℕ → Text) → (Text → Option ℕ) → Text → Db → Result AuthError (Text × Text)
refresh_access_token jwt show parse token db = do
  payload ← or_bad_token (decode_token jwt token refresh)
  user_id ← id_of (parse payload.sub)
  refresh_for jwt show user_id db

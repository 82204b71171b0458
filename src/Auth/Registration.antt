-- ===== src/Auth/Registration.antt =====
-- The end of `register` in backend/app/services/auth_service.py, and the first login after it.
use gst_ai_copilot.Base.{
  ℕ, ◌≡◌, refl, true, false, none, some, [], ◌∷◌, ◌++◌, map, any, find, Text, text_eq, lower, ok,
}
use gst_ai_copilot.Organization.{org_admin, User, Member, Bcrypt}
use gst_ai_copilot.Organization.Service.{verify_password}
use gst_ai_copilot.Books.Charted.{IsSetUp}
use gst_ai_copilot.Auth.{Organization, Db}
use gst_ai_copilot.Auth.Service.{active_memberships, choose_membership, authenticate, logged_in}

-- A registration that has gone through.
pub record Registration (bcrypt : Bcrypt) (show : ℕ → Text) (email password : Text) (before db : Db)
    : Type 0 where
  pub organization : Organization
  pub organizations : db.organizations ≡ before.organizations ++ (organization ∷ [])
  pub slug_is_new :
      any (λ s. text_eq s organization.slug) (map (λ o. o.slug) before.organizations) ≡ false
  pub books : IsSetUp organization.id before.books db.books
  pub user : User
  pub membership : Member
  pub logs_in :
      (after : Db) × (authenticate bcrypt show email password none db
        ≡ ok (after, user, membership))
  pub is_admin : membership.role ≡ org_admin
  pub of_organization : membership.organization_id ≡ organization.id

-- The login of a user with one active membership.
logs_in :
    (bcrypt : Bcrypt) (show : ℕ → Text) (email password : Text) (db : Db) (u : User) (m : Member)
    → find (λ k. text_eq k.email (lower email)) db.users ≡ some u
    → verify_password bcrypt password u.hashed_password ≡ true
    → u.is_active ≡ true
    → active_memberships u.id db ≡ m ∷ []
    → (after : Db) × (authenticate bcrypt show email password none db ≡ ok (after, u, m))
unfolding authenticate choose_membership
logs_in bcrypt show email password db u m there right active all =
    (logged_in show u m db, rw (authenticate, there, right, active, all, choose_membership) refl)

-- ===== src/Auth.antt =====
-- backend/app/services/auth_service.py and backend/app/security/jwt.py: registration, login and the
-- refreshing of tokens, on the users and members of Organization and the books of Books. Times are
-- left out but for the expiry, which is the decoder's, and so is the limit on the length of a column.
pub mod Slugs
pub mod Service
pub mod Sessions
pub mod Registration
mod Tests
use gst_ai_copilot.Base.{ℕ, Option, List, Text}
use gst_ai_copilot.Organization.{User, Member, AuditEntry, OrgError}
use gst_ai_copilot.Books
use gst_ai_copilot.Books.{BooksError}

pub record Organization : Type 0 where
  pub id : ℕ
  pub name : Text
  pub slug : Text

pub record Db : Type 0 where
  pub users : List User
  pub organizations : List Organization
  pub members : List Member
  pub audit : List AuditEntry
  pub next_id : ℕ
  pub books : Books.Db

pub data TokenType : Type 0 where
  access refresh : TokenType

-- What a token says. A claim that the reading code does not use is left out.
pub record TokenPayload : Type 0 where
  pub sub : Text
  pub token_type : TokenType
  pub org_id : Option Text
  pub role : Option Text

-- The library jwt with the program's secret: `encode`, and `decode` followed by the validation of
-- the payload, where none is any exception.
pub record Jwt : Type 0 where
  pub encode : TokenPayload → Text
  pub decode : Text → Option TokenPayload

pub data AuthError : Type 0 where
  email_taken invalid_credentials deactivated no_membership not_a_member organization_required :
      AuthError
  bad_token wrong_token_type no_longer_active malformed_id : AuthError
  bad_password : OrgError → AuthError
  chart_failed : BooksError → AuthError

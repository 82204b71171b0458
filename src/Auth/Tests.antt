-- ===== src/Auth/Tests.antt =====
-- An organization "asha-traders" with one user; stand-ins for bcrypt and the tokens.
use gst_ai_copilot.Base.{
  ℕ, suc, ◌==◌, ◌≡◌, refl, true, false, Option, none, some, List, [], ◌∷◌, ◌++◌, any, length, find,
  Text, codes, text_eq, lower, digits, decimal_text, ok, err, if◌then◌else◌,
}
use gst_ai_copilot.Organization.{org_admin, User, Member, Bcrypt}
use gst_ai_copilot.Auth.{Db, access, refresh, TokenPayload, Jwt, bad_token}
use gst_ai_copilot.Auth.Slugs.{
  slugify, replace_runs, suffixed, find_slug, candidate, find_slug_terminates,
}
use gst_ai_copilot.Auth.Service.{
  Draws, active_memberships, access_payload, issue_tokens, decode_token, refresh_access_token,
}
use gst_ai_copilot.Auth.Sessions.{Refreshed, refresh_access_token-Refreshed}
use gst_ai_copilot.Auth.Registration.{Registration}

abbrev plain_bcrypt : Bcrypt
plain_bcrypt = record { hashpw = λ p s. p; checkpw = λ p h. some (text_eq p h) }

abbrev show : ℕ → Text
show i = i ∷ []

abbrev parse : Text → Option ℕ
parse [] = none
parse (i ∷ s) = some i

abbrev written : TokenPayload → Text
written p = elim p.token_type [ access ↦ b'a' ∷ p.sub | refresh ↦ b'r' ∷ p.sub ]

abbrev read_token : Text → Option TokenPayload
read_token [] = none
read_token (c ∷ s) =
    if c == b'a'
    then some (record { sub = s; token_type = access; org_id = none; role = none })
    else if c == b'r'
    then some (record { sub = s; token_type = refresh; org_id = none; role = none })
    else none

abbrev plain_jwt : Jwt
plain_jwt = record { encode = written; decode = read_token }

abbrev asha : User
asha = record {
  id = 1;
  email = codes "asha@example.com";
  hashed_password = codes "old password";
  full_name = codes "Asha";
  is_active = true;
}

abbrev admin : Member
admin = record { id = 3; organization_id = 2; user_id = 1; role = org_admin; is_active = true }

abbrev db0 : Db
db0 = record {
  users = asha ∷ [];
  organizations = record { id = 2; name = codes "Asha Traders"; slug = codes "asha-traders" } ∷ [];
  members = admin ∷ [];
  audit = [];
  next_id = 4;
  books = record { groups = []; ledgers = []; vouchers = []; next_id = 1 };
}

slug_of_name : slugify (codes "0a1b2c3d") (codes "  Asha & Traders! ") ≡ codes "asha-traders"
unfolding slugify replace_runs lower
slug_of_name = refl

slug_of_signs : slugify (codes "0a1b2c3d") (codes "***") ≡ codes "0a1b2c3d"
unfolding slugify replace_runs lower
slug_of_signs = refl

second_slug :
    find_slug 2 (codes "asha-traders" ∷ []) (codes "asha-traders") 1 (codes "asha-traders")
    ≡ some (codes "asha-traders-2")
unfolding find_slug suffixed decimal_text digits text_eq
second_slug = refl

abbrev slugs : List Text
slugs = codes "asha-traders" ∷ codes "asha-traders-2" ∷ []

find_slug_terminates_example :
    (found : Text) × (find_slug
        (suc (length slugs))
        slugs
        (codes "asha-traders")
        1
        (codes "asha-traders")
      ≡ some found)
    × (any (λ s. text_eq s found) slugs ≡ false)
    × ((k : ℕ) × (found ≡ candidate (codes "asha-traders") k))
find_slug_terminates_example = find_slug_terminates slugs (codes "asha-traders")

access_token_refused :
    refresh_access_token plain_jwt show parse (issue_tokens plain_jwt show asha admin).0 db0
    ≡ err bad_token
unfolding refresh_access_token decode_token issue_tokens access_payload
access_token_refused = refl

refreshes :
    refresh_access_token plain_jwt show parse (codes "r" ++ show 1) db0
    ≡ ok (issue_tokens plain_jwt show asha admin)
unfolding refresh_access_token decode_token find active_memberships
refreshes = refl

refresh_access_token-Refreshed_example :
    Refreshed plain_jwt show parse
      (codes "r" ++ show 1)
      db0
      (issue_tokens plain_jwt show asha admin)
refresh_access_token-Refreshed_example =
    refresh_access_token-Refreshed plain_jwt show parse (codes "r" ++ show 1) db0 refreshes

abbrev draws : Draws
draws = record { fallback = codes "0a1b2c3d"; salt = codes "salt" }

-- ===== src/Auth/Sessions.antt =====
-- What backend/app/services/auth_service.py lets a caller in for: `refresh_access_token` against the
-- tokens, and `authenticate` after `register`.
use gst_ai_copilot.Base.{
  ℕ, ◌==◌, ==_iff, ◌≡◌, refl, sym, ap, subst, ◌∙◌, inl, inr, Bool, true, Bool-cases, select, ◌&&◌,
  Option, none, some, Option-cases, List, [], ◌∷◌, find, Text, Result, ok, err, ok-inj, ◌>>=◌,
  >>=-eq-ok, find-true, arith,
}
use gst_ai_copilot.Organization.{User, Member}
use gst_ai_copilot.Auth.{Db, TokenType, access, refresh, TokenPayload, Jwt, AuthError}
use gst_ai_copilot.Auth.Service.{
  active_memberships, issue_tokens, same_type, decode_token, refresh_access_token, first_membership,
  id_of, or_bad_token, refresh_for, access_payload, refresh_payload, role_value,
}

-- What stands behind the tokens that a refresh gives out.
pub record Refreshed (jwt : Jwt) (show : ℕ → Text) (parse : Text → Option ℕ) (token : Text)
    (db : Db) (tokens : Text × Text) : Type 0 where
  pub payload : TokenPayload
  pub decoded : jwt.decode token ≡ some payload
  pub is_refresh : payload.token_type ≡ refresh
  pub user : User
  pub names : parse payload.sub ≡ some user.id
  pub found : find (λ u. u.id == user.id) db.users ≡ some user
  pub is_active : user.is_active ≡ true
  pub membership : Member
  pub is_first : find (λ m. (m.user_id == user.id) && m.is_active) db.members ≡ some membership
  pub is_own : membership.user_id ≡ user.id
  pub membership_is_active : membership.is_active ≡ true
  -- The two new tokens, each as what is encoded.
  pub access_token :
      tokens.0
      ≡ jwt.encode (record {
        sub = show user.id;
        token_type = access;
        org_id = some (show membership.organization_id);
        role = some (role_value membership.role);
      })
  pub refresh_token :
      tokens.1
      ≡ jwt.encode (record { sub = show user.id; token_type = refresh; org_id = none; role = none })

same_type_eq : (s t : TokenType) → same_type s t ≡ true → s ≡ t
same_type_eq access access h = refl
same_type_eq refresh refresh h = refl
same_type_eq access refresh h = cc
same_type_eq refresh access h = cc

or_bad_token_ok :
    (call : Result AuthError TokenPayload) {p : TokenPayload}
    → or_bad_token call ≡ ok p
    → call ≡ ok p
or_bad_token_ok (ok q) h = h
or_bad_token_ok (err e) h = cc

decode_token-refresh :
    (jwt : Jwt) (token : Text) {p : TokenPayload}
    → decode_token jwt token refresh ≡ ok p
    → (jwt.decode token ≡ some p) × (p.token_type ≡ refresh)
unfolding decode_token
decode_token-refresh jwt token {p} h = elim (Option-cases (jwt.decode token)) [
  | inl bad ↦ absurd (ground arith)
  | inr (q, good) ↦ elim (Bool-cases (same_type q.token_type refresh)) [
    | inl t ↦
        let same : q ≡ p = ok-inj (sym (rw (decode_token, good, t) refl) ∙ h) in
        (good ∙ ap some same, ap (λ k. k.token_type) (sym same) ∙ same_type_eq _ _ t)
    | inr t ↦ absurd (ground arith)
  ]
]

first_membership_ok :
    (ms : List Member) {m : Member}
    → first_membership ms ≡ ok m
    → (others : List Member) × (ms ≡ m ∷ others)
first_membership_ok [] h = cc
first_membership_ok (k ∷ ks) h = (ks, ap (λ x. x ∷ ks) (ok-inj h))

id_of_ok : (i : Option ℕ) {n : ℕ} → id_of i ≡ ok n → i ≡ some n
id_of_ok none h = cc
id_of_ok (some k) h = ap some (ok-inj h)

-- The first membership that is kept is the first that is active, of the user.
first_selected :
    {A : Type 0} (p : A → Bool) (xs : List A) {x : A} {rest : List A}
    → select p xs ≡ x ∷ rest
    → find p xs ≡ some x
unfolding find
first_selected {A} p [] h = absurd (nothing h)
  where
    nothing : {A : Type 0} {x : A} {rest : List A} → [] ≡ x ∷ rest → ⊥
    nothing e = cc
first_selected {A} p (y ∷ ys) {x} {rest} h = elim (Bool-cases (p y)) [
  | inl t ↦
      let same : y ∷ select p ys ≡ x ∷ rest = sym (rw t refl) ∙ h in rw t (ap (head_or none) same)
  | inr t ↦
      let later : select p ys ≡ x ∷ rest = sym (rw t refl) ∙ h in rw t (first_selected p ys later)
]
  where
    head_or : Option A → List A → Option A
    head_or d [] = d
    head_or d (z ∷ zs) = some z

first_is_active :
    (user : ℕ) (db : Db) {m : Member} {others : List Member}
    → active_memberships user db ≡ m ∷ others
    → (find (λ k. (k.user_id == user) && k.is_active) db.members ≡ some m)
      × (m.user_id ≡ user)
      × (m.is_active ≡ true)
unfolding active_memberships
first_is_active user db {m} h =
    let here = first_selected (λ k. (k.user_id == user) && k.is_active) db.members h in
    let both : ((m.user_id == user) && m.is_active) ≡ true =
      find-true (λ k. (k.user_id == user) && k.is_active) (λ k. k) db.members here in
    (here, ground arith, ground arith)

issue_tokens_encode :
    (jwt : Jwt) (show : ℕ → Text) (u : User) (m : Member)
    → ((issue_tokens jwt show u m).0
        ≡ jwt.encode (record {
          sub = show u.id;
          token_type = access;
          org_id = some (show m.organization_id);
          role = some (role_value m.role);
        }))
      × ((issue_tokens jwt show u m).1
          ≡ jwt.encode
              (record { sub = show u.id; token_type = refresh; org_id = none; role = none }))
unfolding issue_tokens access_payload refresh_payload
issue_tokens_encode jwt show u m = (refl, refl)

-- The second half: the user that the token names.
refreshed_user :
    (jwt : Jwt) (show : ℕ → Text) (user_id : ℕ) (db : Db) {tokens : Text × Text}
    → refresh_for jwt show user_id db ≡ ok tokens
    → (user : User) × (membership : Member) × (others : List Member) × (user.id ≡ user_id)
      × (find (λ u. u.id == user_id) db.users ≡ some user)
      × (user.is_active ≡ true)
      × (active_memberships user.id db ≡ membership ∷ others)
      × (tokens ≡ issue_tokens jwt show user membership)
refreshed_user jwt show user_id db {tokens} h =
    elim (Option-cases (find (λ u. u.id == user_id) db.users)) [
      | inl missing ↦ absurd (ground arith)
      | inr (u, there) ↦ elim (Bool-cases u.is_active) [
        | inr t ↦ absurd (ground arith)
        | inl t ↦
            let chosen : (first_membership (active_memberships u.id db)
                  >>= (λ m. ok (issue_tokens jwt show u m)))
                ≡ ok tokens =
              sym (rw (refresh_for, there, t) refl) ∙ h in
            let (m, first, given) =
              >>=-eq-ok (first_membership (active_memberships u.id db)) _ chosen in
            let (others, all) = first_membership_ok (active_memberships u.id db) first in
            (
              u,
              m,
              others,
              (==_iff u.id user_id).0 (find-true (λ k. k.id == user_id) (λ k. k) db.users there),
              there,
              t,
              all,
              sym (ok-inj given),
            )
      ]
    ]

-- Tokens are given out again only for a token that decodes as a refresh token, for the user whose
-- id it carries when that user is active and has an active membership. The new access token names
-- the user and the organization and role of the first such membership, the new refresh token the
-- user alone.
pub refresh_access_token-Refreshed :
    (jwt : Jwt) (show : ℕ → Text) (parse : Text → Option ℕ) (token : Text) (db : Db)
    {tokens : Text × Text}
    → refresh_access_token jwt show parse token db ≡ ok tokens
    → Refreshed jwt show parse token db tokens
unfolding refresh_access_token
refresh_access_token-Refreshed jwt show parse token db {tokens} h =
    let (p, read, rest) = >>=-eq-ok (or_bad_token (decode_token jwt token refresh)) _ h in
    let (decoded, kind) = decode_token-refresh jwt token (or_bad_token_ok _ read) in
    let (i, named, last) = >>=-eq-ok (id_of (parse p.sub)) _ rest in
    let (u, m, others, is_it, there, active, all, given) = refreshed_user jwt show i db last in
    let (here, own, works) = first_is_active u.id db all in
    let issued = issue_tokens_encode jwt show u m in
    record {
      payload = p;
      decoded = decoded;
      is_refresh = kind;
      user = u;
      names = id_of_ok (parse p.sub) named ∙ ap some (sym is_it);
      found = subst (λ k. find (λ u. u.id == k) db.users ≡ some u) (sym is_it) there;
      is_active = active;
      membership = m;
      is_first = here;
      is_own = own;
      membership_is_active = works;
      access_token = ap (λ t. t.0) given ∙ issued.0;
      refresh_token = ap (λ t. t.1) given ∙ issued.1;
    }

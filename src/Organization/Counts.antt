-- ===== src/Organization/Counts.antt =====
-- How the calls change the number of active administrators.
use gst_ai_copilot.Base.{
  find, change, some-inj, strip, lower, ℕ, ◌+◌, ◌≤◌, ◌==◌, ◌≡◌, refl, sym, ap, subst, ◌∙◌, inl, inr,
  Bool, true, false, Bool-cases, Option, some, Option-cases, List, [], ◌∷◌, ◌++◌, map, Text, arith,
  ok, >>=-eq-ok, ok-inj, ◌&&◌, if◌then◌else◌,
}
use gst_ai_copilot.Organization.{
  OrgRole, is_active_admin, active_admin_count, updated_view, would_remove_last_admin, Member, User,
  Db, Bcrypt,
}
use gst_ai_copilot.Organization.Service.{
  view, change_member, member_views, is_member, changed_member, update_member, is_membership, join,
  find_or_create_user, add_member,
}

-- The active administrators of an organization.
abbrev pub admins : ℕ → List Member → ℕ
admins org ms = active_admin_count (member_views org ms)

-- The check counts the members as the change leaves them.
member_views-update :
    (org i : ℕ) (role : Option OrgRole) (is_active : Option Bool) (ms : List Member)
    → member_views org (change_member org i role is_active ms)
      ≡ map (updated_view i role is_active) (member_views org ms)
unfolding member_views change_member
member_views-update org i role is_active [] = refl
member_views-update org i role is_active (m ∷ ms) = elim (Bool-cases (m.organization_id == org)) [
  | inl mine ↦ elim (Bool-cases (m.id == i)) [
    | inl hit ↦
        rw (hit, mine)
          (rw mine (
            rw hit (
              ap (λ r. view (changed_member role is_active m) ∷ r)
                (member_views-update org i role is_active ms))))
    | inr miss ↦
        rw (miss, mine)
          (rw miss (ap (λ r. view m ∷ r) (member_views-update org i role is_active ms)))
  ]
  | inr not_mine ↦ elim (Bool-cases (m.id == i)) [
    | inl hit ↦ rw (hit, not_mine) (rw not_mine (member_views-update org i role is_active ms))
    | inr miss ↦ rw (miss, not_mine) (member_views-update org i role is_active ms)
  ]
]

-- `update_member` on one's own organization leaves it with an active administrator.
pub update_member-admins :
    (show : ℕ → Text) (org actor i : ℕ) (role : Option OrgRole) (is_active : Option Bool) (db : Db)
    {db' : Db}
    → update_member show org actor i role is_active db ≡ ok db'
    → (db'.members ≡ change_member org i role is_active db.members) × (1 ≤ admins org db'.members)
unfolding update_member would_remove_last_admin
update_member-admins show org actor i role is_active db {db'} h =
    elim (Option-cases (find (is_member org i) db.members)) [
      | inl missing ↦ absurd (ground arith)
      | inr (m, there) ↦
          let guard : (active_admin_count
                  (map (updated_view i role is_active) (member_views org db.members))
                == 0)
              ≡ false =
            ground arith in
          let same : db'.members ≡ change_member org i role is_active db.members = ground arith in
          (same, rw same (rw (member_views-update org i role is_active db.members) (ground arith)))
    ]

-- One member's share of the count.
abbrev weight : ℕ → Member → ℕ
weight org m = if (m.organization_id == org) && is_active_admin (view m) then 1 else 0

admins-cons :
    (org : ℕ) (m : Member) (ms : List Member) → admins org (m ∷ ms) ≡ weight org m + admins org ms
unfolding member_views active_admin_count
admins-cons org m ms = elim (Bool-cases (m.organization_id == org)) [
  | inl mine ↦ elim (Bool-cases (is_active_admin (view m))) [
    | inl t ↦ rw (mine, t) (omega arith)
    | inr t ↦ rw (mine, t) (omega arith)
  ]
  | inr not_mine ↦ rw not_mine (omega arith)
]

-- The members of other organizations stay as they are.
pub change_member-other :
    (other org i : ℕ) (role : Option OrgRole) (is_active : Option Bool) (ms : List Member)
    → (org == other) ≡ false
    → admins other (change_member org i role is_active ms) ≡ admins other ms
unfolding change_member
change_member-other other org i role is_active [] apart = refl
change_member-other other org i role is_active (m ∷ ms) apart =
    rw
      (
        admins-cons other (if is_member org i m then changed_member role is_active m else m)
            (change_member org i role is_active ms),
        admins-cons other m ms,
        change_member-other other org i role is_active ms apart,
      )
      (ap (λ w. w + admins other ms) same)
  where
    same :
        weight other (if is_member org i m then changed_member role is_active m else m)
        ≡ weight other m
    same = elim (Bool-cases (is_member org i m)) [
      | inl t ↦
          let not_other : (m.organization_id == other) ≡ false = ground arith in
          rw t (rw not_other refl)
      | inr t ↦ rw t refl
    ]

admins-append :
    (org : ℕ) (ms ns : List Member) → admins org (ms ++ ns) ≡ admins org ms + admins org ns
unfolding member_views active_admin_count
admins-append org [] ns = omega arith
admins-append org (m ∷ ms) ns =
    rw (admins-cons org m (ms ++ ns), admins-cons org m ms, admins-append org ms ns) (omega arith)

-- An inactive member that comes back.
abbrev rejoined : OrgRole → Member → Member
rejoined role m = record m { is_active = true; role = role }

admins-rejoin :
    (org : ℕ) (p : Member → Bool) (role : OrgRole) (ms : List Member) {m : Member}
    → find p ms ≡ some m
    → m.is_active ≡ false
    → admins org ms ≤ admins org (change p (rejoined role) ms)
unfolding find change
admins-rejoin org p role [] e inactive = cc
admins-rejoin org p role (k ∷ ks) {m} e inactive = elim (Bool-cases (p k)) [
  | inl t ↦
      let same : k ≡ m = some-inj (sym (rw t refl) ∙ e) in
      let idle : k.is_active ≡ false = ap (λ x. x.is_active) same ∙ inactive in
      rw t (rw (admins-cons org k ks, admins-cons org (rejoined role k) ks, idle) (ground arith))
  | inr t ↦
      let rest = admins-rejoin org p role ks (sym (rw t refl) ∙ e) inactive in
      rw t
        (rw (admins-cons org k ks, admins-cons org k (change p (rejoined role) ks)) (omega arith))
]

join-admins :
    (org o user : ℕ) (role : OrgRole) (db : Db) {db' : Db}
    → join o user role db ≡ ok db'
    → admins org db.members ≤ admins org db'.members
unfolding join
join-admins org o user role db {db'} h =
    elim (Option-cases (find (is_membership o user) db.members)) [
      | inl missing ↦
          let same : db'.members
              ≡ db.members
                ++ (record {
                  id = db.next_id;
                  organization_id = o;
                  user_id = user;
                  role = role;
                  is_active = true;
                }
                    ∷ []) =
            ground arith in
          rw same (
            rw
              (admins-append org db.members (
                record {
                  id = db.next_id;
                  organization_id = o;
                  user_id = user;
                  role = role;
                  is_active = true;
                }
                ∷ []))
              (omega arith))
      | inr (m, there) ↦
          let idle : m.is_active ≡ false = ground arith in
          let same : db'.members ≡ change (is_membership o user) (rejoined role) db.members =
            ground arith in
          rw same (admins-rejoin org (is_membership o user) role db.members there idle)
    ]

created-members :
    (bcrypt : Bcrypt) (salt email : Text) (full_name password : Option Text) (db : Db)
    {found : Db × User}
    → find_or_create_user bcrypt salt email full_name password db ≡ ok found
    → found.0.members ≡ db.members
unfolding find_or_create_user
created-members bcrypt salt email full_name password db h = ground arith

pub add_member-admins :
    (bcrypt : Bcrypt) (salt : Text) (show : ℕ → Text) (other org actor : ℕ) (address : Text)
    (role : OrgRole) (full_name password : Option Text) (db : Db) {db' : Db}
    → add_member bcrypt salt show org actor address role full_name password db ≡ ok db'
    → admins other db.members ≤ admins other db'.members
unfolding add_member
add_member-admins bcrypt salt show other org actor address role full_name password db {db'} h =
    let (found, e, k) =
      >>=-eq-ok (find_or_create_user bcrypt salt (strip (lower address)) full_name password db) _
        h in
    let (joined, e', k') = >>=-eq-ok (join org found.1.id role found.0) _ k in
    subst (λ ms. admins other ms ≤ admins other db'.members)
      (created-members bcrypt salt (strip (lower address)) full_name password db e)
      (subst (λ d. admins other found.0.members ≤ admins other d.members) (ok-inj k')
        (join-admins other org found.1.id role found.0 e'))

-- ===== src/Contracts/Acceptance.antt =====
-- What the constructors of packages/shared-contracts/src/foundation.js accept.
use xygo_aec.Base.{
  true, ok, ◌≡◌, ◌↔◌, refl, Value, member, is_true, required_string-eq-ok, IsRequired,
  required_string-bind, throw_if-bind, ok-injective, not-eq_false, set_has,
}
use xygo_aec.Contracts.{create_membership, Membership, organization_roles}

-- The membership that the request describes, and what must hold of the request.
pub record Describes (input : Value) (m : Membership) : Type 0 where
  pub id : IsRequired (member input "id") m.id
  pub tenant_id : IsRequired (member input "tenantId") m.tenant_id
  pub user_id : IsRequired (member input "userId") m.user_id
  pub department_id : IsRequired (member input "departmentId") m.department_id
  pub team_id : IsRequired (member input "teamId") m.team_id
  pub input_staged : is_true (member input "staged") ≡ true
  pub role : m.organization_role ≡ member input "organizationRole"
  pub known_role : set_has organization_roles m.organization_role ≡ true
  pub staged : m.staged ≡ true

create_membership_sound :
    (input : Value) (m : Membership) → create_membership input ≡ ok m → Describes input m
unfolding create_membership
create_membership_sound input m h =
    let (id, p1, h1) = required_string-bind _ _ _ h in
    let (tenant_id, p2, h2) = required_string-bind _ _ _ h1 in
    let (user_id, p3, h3) = required_string-bind _ _ _ h2 in
    let (department_id, p4, h4) = required_string-bind _ _ _ h3 in
    let (team_id, p5, h5) = required_string-bind _ _ _ h4 in
    let (staged, h6) = throw_if-bind _ _ _ h5 in
    let (role, h7) = throw_if-bind _ _ _ h6 in
    let e = ok-injective h7 in
    rw (← e) (record {
      id = p1;
      tenant_id = p2;
      user_id = p3;
      department_id = p4;
      team_id = p5;
      input_staged = not-eq_false _ staged;
      role = refl;
      known_role = not-eq_false _ role;
      staged = refl;
    })

create_membership_complete :
    (input : Value) (m : Membership) → Describes input m → create_membership input ≡ ok m
unfolding create_membership
create_membership_complete input m d =
    rw
      (
        (required_string-eq-ok _ "Membership id" _).1 d.id,
        (required_string-eq-ok _ "Membership tenantId" _).1 d.tenant_id,
        (required_string-eq-ok _ "Membership userId" _).1 d.user_id,
        (required_string-eq-ok _ "Membership departmentId" _).1 d.department_id,
        (required_string-eq-ok _ "Membership teamId" _).1 d.team_id,
        d.input_staged,
        ← d.role,
        d.known_role,
      )
      (cc d.staged)

-- A membership request is accepted exactly when its five ids are texts with more than white space,
-- it is staged and it names a known organization role, and then the membership holds its values.
pub create_membership-eq-ok :
    (input : Value) (m : Membership) → (create_membership input ≡ ok m) ↔ Describes input m
create_membership-eq-ok input m =
    (create_membership_sound input m, create_membership_complete input m)

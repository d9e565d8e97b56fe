-- ===== src/Access/Policy/Isolation.antt =====
-- Who can do what under the matrix of packages/authorization/src/policy.js.
use xygo_aec.Access.Policy.Matrix.{Rule, allow_matrix}
use xygo_aec.Base.{
  String, Bool, true, not, ◌&&◌, ◌||◌, List, [], ◌∷◌, Option, none, some, find, find-every,
  find_sound, every, includes, subset, includes-subset, ◌===◌, ◌≡◌, ◌≢◌, ◌⊎◌, refl, ap, sym, subst,
  ◌∙◌, arith, eq_iff,
}
use xygo_aec.Access.Policy.{
  AccessRequest, resolve_role, listed, listed_role, same_key, decide_by, can_perform,
}

-- The rule by which a request was allowed.
record Grant (input : AccessRequest) : Type 0 where
  rule : Rule
  found : find (same_key input) allow_matrix ≡ some rule
  allowed : (decide_by (some rule) input).allowed ≡ true

Grant-of_found :
    (input : AccessRequest) (r : Option Rule)
    → find (same_key input) allow_matrix ≡ r
    → (decide_by r input).allowed ≡ true
    → Grant input
unfolding decide_by
Grant-of_found input none f h = absurd (cc h)
Grant-of_found input (some r) f h = record { rule = r; found = f; allowed = h }

grant : (input : AccessRequest) → (can_perform input).allowed ≡ true → Grant input
unfolding can_perform
grant input h = Grant-of_found input (find (same_key input) allow_matrix) refl h

-- What was checked of every rule holds of the one that allowed a request.
Grant-every :
    {input : AccessRequest} (g : Grant input) (q : Rule → Bool)
    → every q allow_matrix ≡ true
    → q g.rule ≡ true
Grant-every {input} g q h = find-every (same_key input) q allow_matrix g.rule h g.found

-- Nothing is allowed across tenants.
pub can_perform-tenant :
    (input : AccessRequest)
    → (can_perform input).allowed ≡ true
    → input.tenant_id ≡ input.resource_tenant_id
unfolding decide_by
can_perform-tenant input h =
    let g = grant input h in
    ground (arith, g.allowed, eq_iff input.tenant_id input.resource_tenant_id)

abbrev pub writer_roles : List String
writer_roles = "platform_admin" ∷ "company_admin" ∷ "client_staff" ∷ "executive" ∷ []

abbrev pub manager_roles : List String
manager_roles = "project_manager" ∷ "design_manager" ∷ []

abbrev listed_subset : Option (List String) → List String → Bool
listed_subset none us = true
listed_subset (some ts) us = subset ts us

-- A rule for anything but reading names writers and managers only.
abbrev restricts_writes : Rule → Bool
restricts_writes r =
    (r.action === "read")
    || (listed_subset r.organization_roles writer_roles
        && listed_subset r.project_roles manager_roles)

matrix-restricts_writes : every restricts_writes allow_matrix ≡ true
unfolding allow_matrix
matrix-restricts_writes = refl

listed-subset :
    (ts : Option (List String)) (us : List String) (s : String)
    → listed_subset ts us ≡ true
    → listed ts s ≡ true
    → includes us s ≡ true
listed-subset none us s h e = cc
listed-subset (some ts) us s h e = includes-subset ts us s h e

listed_role-subset :
    (ts : Option (List String)) (us : List String) (r : Option String)
    → listed_subset ts us ≡ true
    → listed_role ts r ≡ true
    → listed_role (some us) r ≡ true
listed_role-subset ts us none h e = cc
listed_role-subset ts us (some s) h e = ground (arith, listed-subset ts us s)

-- Anything but reading is allowed only to an organization role among the writers, after the
-- aliases are resolved, or to a project manager or design manager.
pub can_perform-write :
    (input : AccessRequest)
    → (can_perform input).allowed ≡ true
    → input.action ≢ "read"
    → (includes writer_roles (resolve_role input.organization_role) ≡ true)
      ⊎ (listed_role (some manager_roles) input.project_role ≡ true)
unfolding decide_by
can_perform-write input h w =
    let g = grant input h in
    ground (
      arith,
      g.allowed,
      Grant-every g restricts_writes matrix-restricts_writes,
      find_sound (same_key input) allow_matrix g.rule g.found,
      eq_iff g.rule.action input.action,
      eq_iff g.rule.action "read",
      listed-subset g.rule.organization_roles writer_roles (resolve_role input.organization_role),
      listed_role-subset g.rule.project_roles manager_roles input.project_role,
    )

abbrev pub client_readable : List String
client_readable = "project" ∷ "file_record" ∷ "client_portal" ∷ []

abbrev restricts_viewers : Rule → Bool
restricts_viewers r =
    not (listed r.organization_roles "client_viewer")
    || ((r.action === "read") && includes client_readable r.resource)

matrix-restricts_viewers : every restricts_viewers allow_matrix ≡ true
unfolding allow_matrix
matrix-restricts_viewers = refl

same_key_sound :
    (input : AccessRequest) (r : Rule)
    → same_key input r ≡ true
    → (r.resource ≡ input.resource) × (r.action ≡ input.action)
same_key_sound input r h =
    ground (arith, eq_iff r.resource input.resource, eq_iff r.action input.action)

restricted_viewer :
    (r : Rule)
    → restricts_viewers r ≡ true
    → listed r.organization_roles "client_viewer" ≡ true
    → (r.action ≡ "read") × (includes client_readable r.resource ≡ true)
restricted_viewer r h l = ground (arith, eq_iff r.action "read")

resolve_role-client_viewer : resolve_role "client_viewer" ≡ "client_viewer"
unfolding resolve_role
resolve_role-client_viewer = refl

viewer_rule :
    (input : AccessRequest) (r : Rule)
    → (decide_by (some r) input).allowed ≡ true
    → resolve_role input.organization_role ≡ "client_viewer"
    → input.project_role ≡ none
    → listed r.organization_roles "client_viewer" ≡ true
unfolding decide_by
viewer_rule input r h v p = rw (← v) (ground arith)

-- A client viewer without a project role can read projects, files and the client portal, and
-- nothing else.
pub can_perform-client_viewer :
    (input : AccessRequest)
    → (can_perform input).allowed ≡ true
    → input.organization_role ≡ "client_viewer"
    → input.project_role ≡ none
    → (input.action ≡ "read") × (includes client_readable input.resource ≡ true)
can_perform-client_viewer input h v p =
    let g = grant input h in
    let role = ap resolve_role v ∙ resolve_role-client_viewer in
    let restricted = Grant-every g restricts_viewers matrix-restricts_viewers in
    let key = find_sound (same_key input) allow_matrix g.rule g.found in
    let (reads, readable) =
      restricted_viewer g.rule restricted (viewer_rule input g.rule g.allowed role p) in
    let (resource, action) = same_key_sound input g.rule key in
    (sym action ∙ reads, subst (λ s. includes client_readable s ≡ true) resource readable)

-- ===== src/AccessControl/Grants.antt =====
-- What `grant_role` does.
use ithaca_smart_contract_an.Base.{
  ℕ, ◌+◌, ◌≡◌, true, false, String, arith, refl, [], ◌∷◌, if◌then◌else◌, ◌==◌, ap, ==_iff,
}
use mathlib.Core.Path.{subst}
use ithaca_smart_contract_an.Program.Errors.{
  ok, require, access_control, AccessControlError, >>=-eq-ok, require-eq-ok,
}
use ithaca_smart_contract_an.Program.Roles.{is_valid_role}
use ithaca_smart_contract_an.Program.Words.{add_u64}
use ithaca_smart_contract_an.Program.State.{Pubkey, Role, zero_role, zero_member}
use ithaca_smart_contract_an.Program.Space.{role_space, member_space, role_len, member_len}
use ithaca_smart_contract_an.Program.Runtime.{
  Runtime, Account, text, key, init, init_if_needed, seeds_bump, canonical_bump, set_inner, exit,
  loaded,
}
use ithaca_smart_contract_an.Program.Checks.{
  check_access_controller, check_role_account, check_member,
}
use ithaca_smart_contract_an.AccessControl.Grant
use ithaca_smart_contract_an.AccessControl.Grant.{GrantRole, grant_role}

-- The members that a role account stands for: none before it is created.
abbrev pub members : Account Role → ℕ
members role = if role.exists then role.inner.member_count else 0

pub record Granted (rt : Runtime) (g g' : GrantRole) (name : String) (new : Pubkey) : Type 0 where
  pub by_admin : g.admin ≡ g.access_controller.inner.admin
  pub valid : is_valid_role name ≡ true
  pub fresh : g.member.exists ≡ false
  pub controller : check_access_controller rt g'.access_controller ≡ ok tt
  pub same_controller : g'.access_controller ≡ g.access_controller
  pub same_role : g'.role.address ≡ g.role.address
  pub role_exists : g'.role.exists ≡ true
  pub named : g'.role.inner.role ≡ name
  pub counted : g'.role.inner.member_count ≡ members g.role + 1
  pub member_exists : g'.member.exists ≡ true
  pub member : g'.member.inner.member ≡ new
  pub role_account : check_role_account rt g'.access_controller name g'.role ≡ ok tt
  pub member_account : check_member rt g'.role new g'.member ≡ ok tt

module _ (rt : Runtime) where
  pub init-effect {ℓ} :
      {T : Type ℓ} (seeds : _) (space : ℕ) (zeros : T) (a a' : Account T)
      → init rt seeds space zeros a ≡ ok a'
      → (a.exists ≡ false)
        × (a'.exists ≡ true)
        × (a'.space ≡ space)
        × (a'.address ≡ a.address)
        × ((rt.find_program_address seeds).0 ≡ a'.address)
        × (a'.inner ≡ zeros)
  unfolding init
  init-effect seeds space zeros a a' h =
      ground (arith, ==_iff ((rt.find_program_address seeds).0) a.address)

  pub init_if_needed-effect {ℓ} :
      {T : Type ℓ} (seeds : _) (space : ℕ) (zeros : T) (a a' : Account T)
      → init_if_needed rt seeds space zeros a ≡ ok a'
      → (a'.exists ≡ true)
        × (a'.address ≡ a.address)
        × ((rt.find_program_address seeds).0 ≡ a'.address)
        × (a'.inner ≡ (if a.exists then a.inner else zeros))
  unfolding init_if_needed
  init_if_needed-effect seeds space zeros a a' h =
      ground (arith, ==_iff ((rt.find_program_address seeds).0) a.address)

  -- An address that is derived from seeds passes the check with the canonical bump.
  pub seeds_bump-canonical :
      (seeds : _) (k : Pubkey)
      → (rt.find_program_address seeds).0 ≡ k
      → seeds_bump rt seeds (canonical_bump rt seeds) k ≡ ok tt
  seeds_bump-canonical seeds k e = rw (rt.create-find seeds, e) (rw ((==_iff k k).1 refl) refl)

  -- The accounts that the handler gets.
  pub record Ready (g s : GrantRole) (name : String) (new : Pubkey) : Type 0 where
    pub by_admin : g.admin ≡ g.access_controller.inner.admin
    pub controller : check_access_controller rt g.access_controller ≡ ok tt
    pub same_controller : s.access_controller ≡ g.access_controller
    pub same_role : s.role.address ≡ g.role.address
    pub role_exists : s.role.exists ≡ true
    pub role_address :
        (rt.find_program_address (text "role" ∷ key g.access_controller.address ∷ text name ∷ [])).0
        ≡ s.role.address
    pub role_members : s.role.inner.member_count ≡ members g.role
    pub fresh : g.member.exists ≡ false
    pub member_exists : s.member.exists ≡ true
    pub member_address :
        (rt.find_program_address (text "member" ∷ key s.role.address ∷ key new ∷ [])).0
        ≡ s.member.address

  count-members :
      (a : Account Role) (r : Role)
      → r ≡ (if a.exists then a.inner else zero_role)
      → r.member_count ≡ members a
  count-members a r e = ground (arith, ap (λ x. x.member_count) e)

  grant-Ready :
      (g s : GrantRole) (name : String) (new : Pubkey)
      → Grant.try_accounts rt g name new ≡ ok s
      → Ready g s name new
  unfolding Grant.try_accounts
  grant-Ready g s name new h0 =
      let (w, there, h) = >>=-eq-ok (loaded g.access_controller) _ h0 in
      let (role, r0, h1) =
        >>=-eq-ok
          (init_if_needed rt (text "role" ∷ key g.access_controller.address ∷ text name ∷ [])
            role_space zero_role g.role)
          _ h in
      let (member, m0, h2) =
        >>=-eq-ok
          (init rt (text "member" ∷ key role.address ∷ key new ∷ []) member_space zero_member
            g.member)
          _ h1 in
      let (u, by_admin, h3) =
        >>=-eq-ok
          (require (g.admin == g.access_controller.inner.admin)
            (access_control AccessControlError.unauthorized_admin))
          _ h2 in
      let (v, controller, h4) = >>=-eq-ok (check_access_controller rt g.access_controller) _ h3 in
      let r = init_if_needed-effect _ _ zero_role g.role role r0 in
      let m = init-effect _ _ zero_member g.member member m0 in
      let same : record g { role = role; member = member } ≡ s = ground (arith, h4) in
      rw (← same) (record {
        by_admin = (==_iff g.admin g.access_controller.inner.admin).0 (require-eq-ok _ _ by_admin);
        controller = controller;
        same_controller = refl;
        same_role = r.1;
        role_exists = r.0;
        role_address = r.2;
        role_members = count-members g.role role.inner r.3;
        fresh = m.0;
        member_exists = m.1;
        member_address = m.4;
      })

  -- What the handler writes.
  granted : GrantRole → String → Pubkey → GrantRole
  granted s name new = record s {
    role = set_inner s.role (record {
      role = name;
      member_count = s.role.inner.member_count + 1;
      bump = (Grant.bumps rt s name new).role;
    });
    member =
        set_inner s.member (record { member = new; bump = (Grant.bumps rt s name new).member });
  }

  grant_handler-granted :
      (s g' : GrantRole) (name : String) (new : Pubkey)
      → Grant.handler s name new (Grant.bumps rt s name new) ≡ ok g'
      → (is_valid_role name ≡ true) × (g' ≡ granted s name new)
  unfolding Grant.handler add_u64 granted
  grant_handler-granted s g' name new h = ground arith

  Ready-Granted :
      (g s : GrantRole) (name : String) (new : Pubkey)
      → Ready g s name new
      → is_valid_role name ≡ true
      → Granted rt g (granted s name new) name new
  unfolding granted Grant.bumps check_role_account check_member
  Ready-Granted g s name new r valid = record {
    by_admin = r.by_admin;
    valid = valid;
    fresh = r.fresh;
    controller = rw r.same_controller r.controller;
    same_controller = r.same_controller;
    same_role = r.same_role;
    role_exists = r.role_exists;
    named = refl;
    counted = ap (λ n. n + 1) r.role_members;
    member_exists = r.member_exists;
    member = refl;
    role_account =
        rw r.role_exists (seeds_bump-canonical _ _ (rw r.same_controller (r.role_address)));
    member_account = rw r.member_exists (seeds_bump-canonical _ _ r.member_address);
  }

  -- A grant that succeeds was asked for by the admin, for a valid role and an account that was not
  -- a member yet; the role counts one member more, and the role's and the member's accounts pass
  -- the checks that `check_role` makes of them.
  pub grant_role-Granted :
      (g g' : GrantRole) (name : String) (new : Pubkey)
      → grant_role rt g name new ≡ ok g'
      → Granted rt g g' name new
  unfolding grant_role
  grant_role-Granted g g' name new h =
      let (s, ready, h1) = >>=-eq-ok (Grant.try_accounts rt g name new) _ h in
      let (s', handled, h2) =
        >>=-eq-ok (Grant.handler s name new (Grant.bumps rt s name new)) _ h1 in
      let (u, e1, h3) = >>=-eq-ok (exit (role_len s'.role.inner) s'.role) _ h2 in
      let (v, e2, h4) = >>=-eq-ok (exit member_len s'.member) _ h3 in
      let (valid, wrote) = grant_handler-granted s s' name new handled in
      let same : granted s name new ≡ g' = ground (arith, wrote, h4) in
      subst (λ x. Granted rt g x name new) same
        (Ready-Granted g s name new (grant-Ready g s name new ready) valid)

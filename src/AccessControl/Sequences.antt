-- ===== src/AccessControl/Sequences.antt =====
-- Grants, renouncements and checks of a role after each other.
use mathlib.Core.Path.{subst}
use ithaca_smart_contract_an.Base.{
  ℕ, ◌+◌, ◌≤◌, ◌≡◌, String, arith, sym, ◌∙◌, refl, false, ap, ==_iff,
}
use ithaca_smart_contract_an.Program.Errors.{
  ok, err, anchor, AnchorError, access_control, AccessControlError, >>=-eq-ok,
}
use ithaca_smart_contract_an.Program.Words.{sub_u64}
use ithaca_smart_contract_an.Program.State.{Pubkey}
use ithaca_smart_contract_an.Program.Space.{role_len, member_len}
use ithaca_smart_contract_an.Program.Runtime.{Runtime, exit, set_inner, close}
use ithaca_smart_contract_an.Program.Checks.{
  check_access_controller-exists, check_access_controller, check_role_account, check_member,
}
use ithaca_smart_contract_an.AccessControl.Grant
use ithaca_smart_contract_an.AccessControl.Grant.{GrantRole, grant_role}
use ithaca_smart_contract_an.AccessControl.Renounce
use ithaca_smart_contract_an.AccessControl.Renounce.{RenounceRole, renounce_role}
use ithaca_smart_contract_an.AccessControl.Check
use ithaca_smart_contract_an.AccessControl.Check.{CheckRole, check_role}
use ithaca_smart_contract_an.AccessControl.Grants.{members, grant_role-Granted}

-- The accounts of a check, with the system program, and of a renouncement, after a grant.
abbrev pub asked : Runtime → GrantRole → Pubkey → CheckRole
asked rt g caller = record {
  caller = caller;
  access_controller = g.access_controller;
  role = g.role;
  member = g.member;
  system_program = rt.system_program_id;
}

abbrev pub undone : GrantRole → RenounceRole
undone g = record {
  admin = g.admin;
  access_controller = g.access_controller;
  role = g.role;
  member = g.member;
}

-- The accounts of a check, with the system program, after a renouncement.
abbrev pub asked_after : Runtime → RenounceRole → Pubkey → CheckRole
asked_after rt r caller = record {
  caller = caller;
  access_controller = r.access_controller;
  role = r.role;
  member = r.member;
  system_program = rt.system_program_id;
}

module _ (rt : Runtime) where
  -- A role that was granted is confirmed: after a grant that succeeds, `check_role` succeeds for
  -- that role and that member, whoever calls it.
  pub grant_then_check :
      (g g' : GrantRole) (name : String) (new caller : Pubkey)
      → grant_role rt g name new ≡ ok g'
      → check_role rt (asked rt g' caller) name new ≡ ok tt
  unfolding check_role Check.try_accounts Check.handler
  grant_then_check g g' name new caller h =
      let d = grant_role-Granted rt g g' name new h in
      rw
        (
          d.controller,
          d.role_account,
          d.member_account,
          check_access_controller-exists rt g'.access_controller d.controller,
          d.role_exists,
          d.member_exists,
          (==_iff rt.system_program_id rt.system_program_id).1 refl,
        )
        refl

  grant_role-fits :
      (g g' : GrantRole) (name : String) (new : Pubkey)
      → grant_role rt g name new ≡ ok g'
      → exit (role_len g'.role.inner) g'.role ≡ ok tt
  unfolding grant_role
  grant_role-fits g g' name new h =
      let (s, ready, h1) = >>=-eq-ok (Grant.try_accounts rt g name new) _ h in
      let (s', handled, h2) =
        >>=-eq-ok (Grant.handler s name new (Grant.bumps rt s name new)) _ h1 in
      let (u, e1, h3) = >>=-eq-ok (exit (role_len s'.role.inner) s'.role) _ h2 in
      let (v, e2, h4) = >>=-eq-ok (exit member_len s'.member) _ h3 in
      let same : s' ≡ g' = ground (arith, h4) in
      subst (λ x. exit (role_len x.role.inner) x.role ≡ ok tt) same e1

  grant_role-admin :
      (g g' : GrantRole) (name : String) (new : Pubkey)
      → grant_role rt g name new ≡ ok g'
      → g'.admin ≡ g.admin
  unfolding grant_role Grant.handler Grant.try_accounts
  grant_role-admin g g' name new h = ground arith

  taken : GrantRole → ℕ → RenounceRole
  taken g n = record (undone g) {
    role = set_inner g.role (record g.role.inner { member_count = n });
  }

  renounce-granted :
      (g : GrantRole) (n : ℕ)
      → g.role.inner.member_count ≡ n + 1
      → 1 ≤ n
      → Renounce.handler (undone g) ≡ ok (taken g n)
  unfolding Renounce.handler sub_u64 taken
  renounce-granted g n e le = ground arith

  -- A grant to a role that has members is undone by a renouncement of the same admin: the
  -- renouncement succeeds, the role counts as many members as before the grant, and the account
  -- that was granted the role does not exist as a member.
  pub grant_then_renounce :
      (g g' : GrantRole) (name : String) (new : Pubkey)
      → grant_role rt g name new ≡ ok g'
      → 1 ≤ members g.role
      → (r : RenounceRole) × (renounce_role rt (undone g') name new ≡ ok r)
        × (r.role.inner.member_count ≡ members g.role)
        × (r.member.exists ≡ false)
  unfolding renounce_role Renounce.try_accounts taken
  grant_then_renounce g g' name new h some_members =
      let d = grant_role-Granted rt g g' name new h in
      let fits = grant_role-fits g g' name new h in
      let e = grant_role-admin g g' name new h in
      let same : g'.admin ≡ g'.access_controller.inner.admin =
        e ∙ d.by_admin ∙ ap (λ a. a.inner.admin) (sym d.same_controller) in
      let handled = renounce-granted g' (members g.role) d.counted some_members in
      (
        record (taken g' (members g.role)) { member = close g'.member },
        rw
            (
              (==_iff g'.admin g'.access_controller.inner.admin).1 same,
              d.controller,
              d.role_account,
              d.member_account,
              handled,
              fits,
              check_access_controller-exists rt g'.access_controller d.controller,
              d.role_exists,
              d.member_exists,
            )
            refl,
        refl,
        refl,
      )

  -- After a renouncement that succeeds `check_role` fails for that role and that member, at the
  -- member's account, which does not exist.
  pub renounce_then_check :
      (ctx self : RenounceRole) (name : String) (who caller : Pubkey)
      → renounce_role rt ctx name who ≡ ok self
      → check_role rt (asked_after rt self caller) name who
        ≡ err (anchor AnchorError.account_not_initialized)
  unfolding renounce_role Renounce.try_accounts Renounce.handler sub_u64 check_role
      Check.try_accounts check_access_controller check_role_account check_member
  renounce_then_check ctx self name who caller h = ground arith

  -- `check_role` has an error for accounts without the role, and never returns it.
  pub check_role-no_role :
      (ctx : CheckRole) (name : String) (who : Pubkey)
      → ¬ (check_role rt ctx name who ≡ err (access_control AccessControlError.no_role))
  unfolding check_role Check.try_accounts Check.handler check_access_controller check_role_account
      check_member
  check_role-no_role ctx name who h = ground arith

-- ===== src/AccessControl/Renounces.antt =====
-- What `renounce_role` does.
use ithaca_smart_contract_an.Base.{◌+◌, ◌≤◌, ◌≡◌, true, String, arith, ap, ==_iff}
use ithaca_smart_contract_an.Program.Errors.{ok, err, ◌>>=◌, access_control, AccessControlError}
use ithaca_smart_contract_an.Program.Words.{sub_u64}
use ithaca_smart_contract_an.Program.State.{Pubkey}
use ithaca_smart_contract_an.Program.Runtime.{Runtime, close}
use ithaca_smart_contract_an.Program.Checks.{
  check_access_controller, check_role_account, check_member,
}
use ithaca_smart_contract_an.AccessControl.Renounce
use ithaca_smart_contract_an.AccessControl.Renounce.{RenounceRole, renounce_role}

module _ (rt : Runtime) where
  pub record Renounced (ctx self : RenounceRole) (name : String) (who : Pubkey) : Type 0 where
    pub by_admin : ctx.admin ≡ ctx.access_controller.inner.admin
    pub some_left : self.role.inner.member_count + 1 ≡ ctx.role.inner.member_count
    pub not_last : 1 ≤ self.role.inner.member_count
    pub was_member : ctx.member.exists ≡ true
    pub closed : self.member ≡ close ctx.member
    pub same_role : self.role.inner.role ≡ ctx.role.inner.role

  -- A renouncement that succeeds was asked for by the admin; the role counts one member less and
  -- keeps at least one, and the member's account is closed.
  pub renounce_role-Renounced :
      (ctx self : RenounceRole) (name : String) (who : Pubkey)
      → renounce_role rt ctx name who ≡ ok self
      → Renounced ctx self name who
  unfolding renounce_role Renounce.handler sub_u64 Renounce.try_accounts check_access_controller
      check_role_account check_member
  renounce_role-Renounced ctx self name who h = record {
    by_admin = ground (arith, ==_iff ctx.admin ctx.access_controller.inner.admin);
    some_left = ground (arith);
    not_last = ground (arith);
    was_member = ground arith;
    closed = ground arith;
    same_role = ground arith;
  }

  -- The last member of a role is never taken out of it.
  pub renounce_role-last :
      (ctx : RenounceRole) (name : String) (who : Pubkey)
      → Renounce.try_accounts rt ctx name who ≡ ok tt
      → ctx.role.inner.member_count ≡ 1
      → renounce_role rt ctx name who ≡ err (access_control AccessControlError.last_member)
  unfolding renounce_role Renounce.handler sub_u64
  renounce_role-last ctx name who checked last =
      ground (arith, ap (λ r. r >>= λ u. Renounce.handler ctx) checked)

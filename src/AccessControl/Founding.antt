-- ===== src/AccessControl/Founding.antt =====
-- The admin role of a new access controller, against the set of its members.
use ithaca_smart_contract_an.Base.{
  ◌≡◌, true, false, ◌==◌, ==_iff, if◌then◌else◌, [], ◌∷◌, arith, refl,
}
use ithaca_smart_contract_an.Program.Errors.{ok}
use ithaca_smart_contract_an.Program.Roles.{admin, as_str}
use ithaca_smart_contract_an.Program.State.{Pubkey, Member}
use ithaca_smart_contract_an.Program.Runtime.{Runtime, Account, init, text, key}
use ithaca_smart_contract_an.Program.Checks.{check_role_account, check_member}
use ithaca_smart_contract_an.AccessControl.Init
use ithaca_smart_contract_an.AccessControl.Init.{InitAccessController, init_access_controller}
use ithaca_smart_contract_an.AccessControl.Grants.{members}
use ithaca_smart_contract_an.AccessControl.Sets.{has}
use ithaca_smart_contract_an.AccessControl.Members.{RoleAccounts, Represents}

-- The accounts of the admin role: the admin's member account, beside those of all other keys.
abbrev pub founded : InitAccessController → (Pubkey → Account Member) → RoleAccounts
founded ctx others = record {
  role = ctx.role;
  member = λ k. if k == ctx.admin then ctx.member else others k;
}

-- What the instruction leaves.
record Founded (rt : Runtime) (ctx ctx' : InitAccessController) : Type 0 where
  same_admin : ctx'.admin ≡ ctx.admin
  member_exists : ctx'.member.exists ≡ true
  counted : members ctx'.role ≡ 1
  role_account : check_role_account rt ctx'.access_controller (as_str admin) ctx'.role ≡ ok tt
  member_account : check_member rt ctx'.role ctx'.admin ctx'.member ≡ ok tt

init-Founded :
    (rt : Runtime) (ctx ctx' : InitAccessController)
    → init_access_controller rt ctx ≡ ok ctx'
    → Founded rt ctx ctx'
unfolding init_access_controller Init.try_accounts Init.initialize Init.bumps init
    check_role_account check_member
init-Founded rt ctx ctx' h =
    let role_seeds = text "role" ∷ key ctx.access_controller.address ∷ text (as_str admin) ∷ [] in
    let member_seeds = text "member" ∷ key ctx.role.address ∷ key ctx.admin ∷ [] in
    ground (
      arith,
      rt.create-find role_seeds,
      rt.create-find member_seeds,
      ==_iff (rt.find_program_address role_seeds).0 ctx.role.address,
      ==_iff (rt.find_program_address member_seeds).0 ctx.member.address,
      ==_iff ctx.role.address ctx.role.address,
      ==_iff ctx.member.address ctx.member.address,
    )

-- A new access controller's admin role stands for the set of its admin alone, where no other key
-- had a member account of it before.
pub init_access_controller-Represents :
    (rt : Runtime) (ctx ctx' : InitAccessController) (others : Pubkey → Account Member)
    → init_access_controller rt ctx ≡ ok ctx'
    → ((k : Pubkey) → (others k).exists ≡ false)
    → Represents rt ctx'.access_controller (as_str admin) (founded ctx' others) (ctx'.admin ∷ [])
init_access_controller-Represents rt ctx ctx' others h none_else =
    let f = init-Founded rt ctx ctx' h in
    record {
      distinct = (refl, tt);
      exactly = λ k.
          ground (arith, f.member_exists, none_else k, ==_iff k ctx'.admin, ==_iff ctx'.admin k);
      counted = f.counted;
      role_account = λ k g. f.role_account;
      member_account = λ k g. member k g f.member_account;
    }
  where
    member :
        (k : Pubkey)
        → has (ctx'.admin ∷ []) k ≡ true
        → check_member rt ctx'.role ctx'.admin ctx'.member ≡ ok tt
        → check_member rt ctx'.role k (if k == ctx'.admin then ctx'.member else others k) ≡ ok tt
    member k g checked =
        let same : ctx'.admin ≡ k = ground (arith, ==_iff ctx'.admin k) in
        rw (← same, (==_iff ctx'.admin ctx'.admin).1 refl) checked

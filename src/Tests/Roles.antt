-- ===== src/Tests/Roles.antt =====
-- An access controller whose roles are granted, checked and renounced.
use ithaca_smart_contract_an.Base.{
  ℕ, ◌≡◌, [], ◌∷◌, true, false, refl, arith, String, ◌↔◌, List, ◌==◌, ==_iff, if◌then◌else◌,
}
use ithaca_smart_contract_an.Program.Errors.{ok, err, anchor, AnchorError}
use ithaca_smart_contract_an.Program.Roles.{admin, as_str, is_valid_role}
use ithaca_smart_contract_an.Program.Words.{add_u64}
use ithaca_smart_contract_an.Program.State.{zero_access_controller, zero_role, zero_member}
use ithaca_smart_contract_an.Program.Runtime.{text, key, init, init_if_needed}
use ithaca_smart_contract_an.Program.Checks.{
  check_access_controller, check_role_account, check_member,
}
use ithaca_smart_contract_an.AccessControl.Init
use ithaca_smart_contract_an.AccessControl.Init.{InitAccessController, init_access_controller}
use ithaca_smart_contract_an.AccessControl.Grant
use ithaca_smart_contract_an.AccessControl.Grant.{GrantRole, grant_role}
use ithaca_smart_contract_an.AccessControl.Renounce.{RenounceRole, renounce_role}
use ithaca_smart_contract_an.AccessControl.Check.{check_role}
use ithaca_smart_contract_an.AccessControl.Sequences.{undone, grant_then_renounce}
use ithaca_smart_contract_an.AccessControl.Sets.{has}
use ithaca_smart_contract_an.AccessControl.Members.{
  RoleAccounts, Step, grants, Follows, Represents, Step-Represents, asking,
}
use ithaca_smart_contract_an.AccessControl.Membership.{
  TellsApart, role_seeds, member_seeds, check_role_iff,
}
use ithaca_smart_contract_an.AccessControl.Founding.{founded, init_access_controller-Represents}
use ithaca_smart_contract_an.AccessControl.AdminSpace.{init_then_grant_admin}
use ithaca_smart_contract_an.Tests.Concrete.{
  digest, rt, result, account, missing, boss, ac_address, controller,
}

abbrev utility : String
utility = "UTILITY_ACCOUNT_ROLE"

abbrev role_address : ℕ
role_address = digest (text "role" ∷ key ac_address ∷ text utility ∷ [])

abbrev member_address : ℕ → ℕ
member_address k = digest (text "member" ∷ key role_address ∷ key k ∷ [])

-- The grant of the role to account 50, which has one member: account 51.
abbrev granting : GrantRole
granting = record {
  admin = boss;
  access_controller = controller;
  role = account role_address 49 (record { role = utility; member_count = 1; bump = 255 });
  member = missing (member_address 50) zero_member;
}

abbrev granted : GrantRole
granted = result granting (grant_role rt granting utility 50)

granted_ok : grant_role rt granting utility 50 ≡ ok granted
unfolding grant_role Grant.try_accounts Grant.handler init init_if_needed check_access_controller
    is_valid_role add_u64 Grant.bumps
granted_ok = refl

grant_then_renounce_example :
    (r : RenounceRole) × (renounce_role rt (undone granted) utility 50 ≡ ok r)
    × (r.role.inner.member_count ≡ 1)
    × (r.member.exists ≡ false)
grant_then_renounce_example =
    grant_then_renounce rt granting granted utility 50 granted_ok (omega arith)

-- A role with two members, and one whose last member is account 50.
abbrev renouncing : ℕ → RenounceRole
renouncing n = record {
  admin = boss;
  access_controller = controller;
  role = account role_address 49 (record { role = utility; member_count = n; bump = 255 });
  member = account (member_address 50) 41 (record { member = 50; bump = 255 });
}

abbrev renounced : RenounceRole
renounced = result (renouncing 2) (renounce_role rt (renouncing 2) utility 50)

-- A new access controller, and the grant of its admin role to account 50.
abbrev admin_role_address : ℕ
admin_role_address = digest (text "role" ∷ key ac_address ∷ text "DEFAULT_ADMIN_ROLE" ∷ [])

abbrev starting : InitAccessController
starting = record {
  admin = boss;
  access_controller = missing ac_address zero_access_controller;
  role = missing admin_role_address zero_role;
  member = missing (digest (text "member" ∷ key admin_role_address ∷ key boss ∷ [])) zero_member;
}

abbrev started : InitAccessController
started = result starting (init_access_controller rt starting)

started_ok : init_access_controller rt starting ≡ ok started
unfolding init_access_controller Init.try_accounts Init.initialize init as_str Init.bumps
started_ok = refl

abbrev regranting : GrantRole
regranting = record {
  admin = boss;
  access_controller = started.access_controller;
  role = started.role;
  member = missing (digest (text "member" ∷ key admin_role_address ∷ key 50 ∷ [])) zero_member;
}

init_then_grant_admin_example :
    grant_role rt regranting (as_str admin) 50 ≡ err (anchor AnchorError.constraint_space)
init_then_grant_admin_example =
    init_then_grant_admin rt starting started regranting 50 started_ok refl refl

-- The role's accounts with one member, account 51, before and after the grant.
abbrev accounts_before : RoleAccounts
accounts_before = record {
  role = granting.role;
  member = λ k.
      if k == 51
      then account (member_address 51) 41 (record { member = 51; bump = 255 })
      else missing (member_address k) zero_member;
}

abbrev accounts_after : RoleAccounts
accounts_after = record {
  role = granted.role;
  member = λ k. if k == 50 then granted.member else accounts_before.member k;
}

abbrev granting_step : Step rt controller utility accounts_before accounts_after
granting_step = grants boss 50 granted granted_ok refl (λ k. refl)

before-Represents : Represents rt controller utility accounts_before (51 ∷ [])
unfolding check_role_account check_member
before-Represents = record {
  distinct = (refl, tt);
  exactly = λ k. ground (arith, ==_iff k 51, ==_iff 51 k);
  counted = refl;
  role_account = λ k h. refl;
  member_account = λ k h. rw (← (==_iff 51 k).0 (ground (arith, h))) refl;
}

Step-Represents_example :
    (ks : List ℕ) × Follows rt controller utility granting_step (51 ∷ []) ks
    × Represents rt controller utility accounts_after ks
Step-Represents_example =
    Step-Represents rt controller utility (51 ∷ []) granting_step before-Represents

controller_checked : check_access_controller rt controller ≡ ok tt
unfolding check_access_controller
controller_checked = refl

admin_told_apart : TellsApart rt (role_seeds rt controller) "DEFAULT_ADMIN_ROLE" utility
admin_told_apart bump a e e' = ground arith

keys_told_apart : TellsApart rt (member_seeds rt accounts_before.role) 51 50
keys_told_apart bump a e e' = ground arith

check_role_iff_example :
    (check_role rt (asking rt controller utility accounts_before 3 51 0) "DEFAULT_ADMIN_ROLE" 50
      ≡ ok tt)
    ↔ (("DEFAULT_ADMIN_ROLE" ≡ utility)
        × (◌≡◌ {A = ℕ} 51 50)
        × (◌≡◌ {A = ℕ} 0 0)
        × (has (51 ∷ []) 50 ≡ true))
check_role_iff_example =
    check_role_iff rt controller utility accounts_before (51 ∷ []) 3 51 50 0 "DEFAULT_ADMIN_ROLE"
      before-Represents controller_checked admin_told_apart keys_told_apart

init_access_controller-Represents_example :
    Represents rt started.access_controller
      (as_str admin)
      (founded started (λ k. missing 0 zero_member))
      (started.admin ∷ [])
init_access_controller-Represents_example =
    init_access_controller-Represents rt starting started (λ k. missing 0 zero_member) started_ok
      (λ k. refl)

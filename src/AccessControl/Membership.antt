-- ===== src/AccessControl/Membership.antt =====
-- `check_role` against the set of the members of a role.
use ithaca_smart_contract_an.Base.{
  ==_iff, refl, ℕ, ◌≡◌, ◌↔◌, true, [], ◌∷◌, some, List, String, arith, sym, ◌∙◌,
}
use ithaca_smart_contract_an.Program.Errors.{ok}
use ithaca_smart_contract_an.Program.State.{Pubkey, AccessController, Role, Member}
use ithaca_smart_contract_an.Program.Runtime.{Runtime, Account, Seed, text, key, is_address_iff}
use ithaca_smart_contract_an.Program.Checks.{
  check_access_controller, check_role_account, check_member, check_access_controller-exists,
  check_role_account-exists, check_member-exists,
}
use ithaca_smart_contract_an.AccessControl.Check
use ithaca_smart_contract_an.AccessControl.Check.{CheckRole, check_role}
use ithaca_smart_contract_an.AccessControl.Sets.{has}
use ithaca_smart_contract_an.AccessControl.Members.{RoleAccounts, asking, Represents}

module _ (rt : Runtime) where
  -- The seeds of `x` and of `y` derive one address with one bump only if `x` is `y`.
  abbrev pub TellsApart {ℓ} : {A : Type ℓ} → (A → List Seed) → A → A → Type ℓ
  TellsApart seeds x y =
      (bump : ℕ) (a : Pubkey)
      → rt.create_program_address (seeds x) bump ≡ some a
      → rt.create_program_address (seeds y) bump ≡ some a
      → x ≡ y

  abbrev pub role_seeds : Account AccessController → String → List Seed
  role_seeds ac name = text "role" ∷ key ac.address ∷ text name ∷ []

  abbrev pub member_seeds : Account Role → Pubkey → List Seed
  member_seeds role who = text "member" ∷ key role.address ∷ key who ∷ []

  check_role_account-address :
      (ac : Account AccessController) (name : String) (role : Account Role)
      → check_role_account rt ac name role ≡ ok tt
      → rt.create_program_address (role_seeds ac name) role.inner.bump ≡ some role.address
  unfolding check_role_account
  check_role_account-address ac name role h = ground (
    arith,
    is_address_iff (rt.create_program_address (role_seeds ac name) role.inner.bump) role.address,
  )

  check_member-address :
      (role : Account Role) (who : Pubkey) (m : Account Member)
      → check_member rt role who m ≡ ok tt
      → (m.exists ≡ true)
        × (rt.create_program_address (member_seeds role who) m.inner.bump ≡ some m.address)
  unfolding check_member
  check_member-address role who m h = ground (
    arith,
    is_address_iff (rt.create_program_address (member_seeds role who) m.inner.bump) m.address,
  )

  -- What a check that succeeds has checked.
  check_role-checks :
      (a : CheckRole) (asked : String) (k : Pubkey)
      → check_role rt a asked k ≡ ok tt
      → (check_role_account rt a.access_controller asked a.role ≡ ok tt)
        × (check_member rt a.role k a.member ≡ ok tt)
        × (a.system_program ≡ rt.system_program_id)
  unfolding check_role Check.try_accounts
  check_role-checks a asked k h = ground (arith, ==_iff a.system_program rt.system_program_id)

  check_role-succeeds :
      (a : CheckRole) (asked : String) (k : Pubkey)
      → a.system_program ≡ rt.system_program_id
      → check_access_controller rt a.access_controller ≡ ok tt
      → check_role_account rt a.access_controller asked a.role ≡ ok tt
      → check_member rt a.role k a.member ≡ ok tt
      → check_role rt a asked k ≡ ok tt
  unfolding check_role Check.try_accounts Check.handler
  check_role-succeeds a asked k system controller role member = ground (
    arith,
    controller,
    role,
    member,
    (==_iff a.system_program rt.system_program_id).1 system,
    check_access_controller-exists rt a.access_controller controller,
    check_role_account-exists rt a.access_controller asked a.role role,
    check_member-exists rt a.role k a.member member,
  )

module _ (rt : Runtime) (ac : Account AccessController) (name : String) where
  -- On accounts that stand for the set of the members of a role, under an access controller that
  -- passes its check, `check_role` that is given the account of the role and the member account of
  -- any key `j`, and is asked whether any key `k` has any role `asked`, succeeds exactly when
  -- `asked` is the role's name, `j` is `k`, the given system program is the system program, and `k`
  -- is in the set; where the addresses of role accounts tell the two names apart, and those of
  -- member accounts tell the two keys apart.
  pub check_role_iff :
      (w : RoleAccounts) (ks : List Pubkey) (caller j k system_program : Pubkey) (asked : String)
      → Represents rt ac name w ks
      → check_access_controller rt ac ≡ ok tt
      → TellsApart rt (role_seeds rt ac) asked name
      → TellsApart rt (member_seeds rt w.role) j k
      → (check_role rt (asking rt ac name w caller j system_program) asked k ≡ ok tt)
        ↔ ((asked ≡ name) × (j ≡ k) × (system_program ≡ rt.system_program_id) × (has ks k ≡ true))
  check_role_iff w ks caller j k system_program asked s controller names keys = (
    λ h.
        let (role, member, system) =
          check_role-checks rt (asking rt ac name w caller j system_program) asked k h in
        let (there, at_k) = check_member-address rt w.role k (w.member j) member in
        let held : has ks j ≡ true = sym (s.exactly j) ∙ there in
        let at_j = (check_member-address rt w.role j (w.member j) (s.member_account j held)).1 in
        let same = keys _ _ at_j at_k in
        let at_name = check_role_account-address rt ac name w.role (s.role_account j held) in
        let at_asked = check_role_account-address rt ac asked w.role role in
        (names _ _ at_asked at_name, same, system, rw same at held),
    λ (same_name, same_key, system, held).
        rw (same_name, same_key, system)
          (check_role-succeeds rt (asking rt ac name w caller k rt.system_program_id) name k refl
            controller (s.role_account k held) (s.member_account k held)),
  )

-- ===== src/AccessControl/AdminSpace.antt =====
-- The admin role's account is allocated by `init_access_controller`, with the space of an access
-- controller, and asked for again by `grant_role`, with the space of a role.
use ithaca_smart_contract_an.Base.{◌≡◌, [], ◌∷◌, arith, true, ==_iff}
use ithaca_smart_contract_an.Program.Errors.{ok, err, anchor, AnchorError, >>=-eq-ok}
use ithaca_smart_contract_an.Program.Roles.{admin, as_str}
use ithaca_smart_contract_an.Program.State.{Pubkey, zero_access_controller, zero_role, zero_member}
use ithaca_smart_contract_an.Program.Space.{access_controller_space, role_space}
use ithaca_smart_contract_an.Program.Runtime.{Runtime, text, key, init, init_if_needed}
use ithaca_smart_contract_an.AccessControl.Init
use ithaca_smart_contract_an.AccessControl.Init.{InitAccessController, init_access_controller}
use ithaca_smart_contract_an.AccessControl.Grant
use ithaca_smart_contract_an.AccessControl.Grant.{GrantRole, grant_role}
use ithaca_smart_contract_an.AccessControl.Grants.{init-effect}

module _ (rt : Runtime) where
  init-role :
      (ctx s : InitAccessController)
      → Init.try_accounts rt ctx ≡ ok s
      → (s.role.exists ≡ true)
        × (s.role.space ≡ access_controller_space)
        × (s.access_controller.exists ≡ true)
        × ((rt.find_program_address
              (text "role" ∷ key s.access_controller.address ∷ text (as_str admin) ∷ [])).0
            ≡ s.role.address)
  unfolding Init.try_accounts
  init-role ctx s h =
      let (ac, h1, k1) =
        >>=-eq-ok
          (init rt (text "access_controller" ∷ key ctx.admin ∷ []) access_controller_space
            zero_access_controller ctx.access_controller)
          _ h in
      let (role, h2, k2) =
        >>=-eq-ok
          (init rt (text "role" ∷ key ac.address ∷ text (as_str admin) ∷ []) access_controller_space
            zero_role ctx.role)
          _ k1 in
      let (member, h3, k3) =
        >>=-eq-ok
          (init rt (text "member" ∷ key role.address ∷ key ctx.admin ∷ []) access_controller_space
            zero_member ctx.member)
          _ k2 in
      let same : record ctx { access_controller = ac; role = role; member = member } ≡ s =
        ground (arith, k3) in
      let r = init-effect rt _ _ zero_role ctx.role role h2 in
      let a = init-effect rt _ _ zero_access_controller ctx.access_controller ac h1 in
      rw (← same) (r.1, r.2, a.1, r.4)

  wrong_space :
      (g : GrantRole) (new : Pubkey)
      → g.access_controller.exists ≡ true
      → g.role.exists ≡ true
      → g.role.space ≡ access_controller_space
      → (rt.find_program_address
          (text "role" ∷ key g.access_controller.address ∷ text (as_str admin) ∷ [])).0
        ≡ g.role.address
      → grant_role rt g (as_str admin) new ≡ err (anchor AnchorError.constraint_space)
  unfolding grant_role Grant.try_accounts init_if_needed
  wrong_space g new controller there small derived = ground (
    arith,
    rt.accepts_space_iff role_space g.role.space,
    (==_iff
          ((rt.find_program_address
            (text "role" ∷ key g.access_controller.address ∷ text (as_str admin) ∷ [])).0)
          g.role.address).1
        derived,
  )

  -- The admin role of an access controller that was initialised cannot be granted: whoever asks,
  -- for whatever account, `grant_role` fails at the space of the role's account.
  pub init_then_grant_admin :
      (ctx ctx' : InitAccessController) (g : GrantRole) (new : Pubkey)
      → init_access_controller rt ctx ≡ ok ctx'
      → g.access_controller ≡ ctx'.access_controller
      → g.role ≡ ctx'.role
      → grant_role rt g (as_str admin) new ≡ err (anchor AnchorError.constraint_space)
  unfolding init_access_controller Init.initialize
  init_then_grant_admin ctx ctx' g new h same_controller same_role =
      let (s, ready, h1) = >>=-eq-ok (Init.try_accounts rt ctx) _ h in
      let (there, small, controller_there, derived) = init-role ctx s ready in
      let role_exists : ctx'.role.exists ≡ s.role.exists = ground (arith, h1) in
      let role_space' : ctx'.role.space ≡ s.role.space = ground (arith, h1) in
      let role_address : ctx'.role.address ≡ s.role.address = ground (arith, h1) in
      let controller : ctx'.access_controller.address ≡ s.access_controller.address =
        ground (arith, h1) in
      let controller_exists : ctx'.access_controller.exists ≡ s.access_controller.exists =
        ground (arith, h1) in
      wrong_space g new (rw (same_controller, controller_exists) controller_there)
        (rw (same_role, role_exists) there) (rw (same_role, role_space') small)
        (rw (same_controller, same_role, controller, role_address) derived)

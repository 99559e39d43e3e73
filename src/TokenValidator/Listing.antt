-- ===== src/TokenValidator/Listing.antt =====
-- `add_token_to_whitelist`, `remove_token_from_whitelist`, and the one after the other.
use mathlib.Core.Path.{subst}
use ithaca_smart_contract_an.Base.{◌≡◌, ℕ, ◌<◌, arith, true, false, refl}
use ithaca_smart_contract_an.Program.Errors.{ok, >>=-eq-ok}
use ithaca_smart_contract_an.Program.Roles.{admin, as_str}
use ithaca_smart_contract_an.Program.State.{zero_whitelisted_token, WhitelistedToken}
use ithaca_smart_contract_an.Program.Space.{whitelisted_token_space}
use ithaca_smart_contract_an.Program.Runtime.{
  Runtime, init, canonical_bump, set_inner, Account, close, loaded,
}
use ithaca_smart_contract_an.Program.Checks.{
  check_access_controller, check_role_account, check_member, check_token_validator, check_mint,
  check_whitelisted_token, check_access_controller-exists, check_role_account-exists,
  check_member-exists, check_token_validator-exists, check_mint-exists,
}
use ithaca_smart_contract_an.AccessControl.Grants.{init-effect, seeds_bump-canonical}
use ithaca_smart_contract_an.TokenValidator.Add
use ithaca_smart_contract_an.TokenValidator.Add.{AddTokenToWhitelist, add_token_to_whitelist}
use ithaca_smart_contract_an.TokenValidator.Remove
use ithaca_smart_contract_an.TokenValidator.Remove.{
  RemoveTokenFromWhitelist, remove_token_from_whitelist,
}

-- The accounts of a removal after a token was added.
abbrev pub unlisted : AddTokenToWhitelist → RemoveTokenFromWhitelist
unlisted a = record {
  admin = a.admin;
  access_controller = a.access_controller;
  role = a.role;
  member = a.member;
  token_validator = a.token_validator;
  token_to_remove = a.new_token_to_whitelist;
  whitelisted_token = a.whitelisted_token;
}

module _ (rt : Runtime) where
  -- The accounts that the handler gets.
  record Ready (a s : AddTokenToWhitelist) : Type 0 where
    same : record a { whitelisted_token = s.whitelisted_token } ≡ s
    controller : check_access_controller rt a.access_controller ≡ ok tt
    role : check_role_account rt a.access_controller (as_str admin) a.role ≡ ok tt
    member : check_member rt a.role a.admin a.member ≡ ok tt
    validator : check_token_validator rt a.access_controller a.token_validator ≡ ok tt
    mint : check_mint a.new_token_to_whitelist ≡ ok tt
    opened :
        init rt (Add.seeds a) whitelisted_token_space zero_whitelisted_token a.whitelisted_token
        ≡ ok s.whitelisted_token

  add-Ready : (a s : AddTokenToWhitelist) → Add.try_accounts rt a ≡ ok s → Ready a s
  unfolding Add.try_accounts
  add-Ready a s h =
      let (l1, there1, k1) = >>=-eq-ok (loaded a.access_controller) _ h in
      let (l2, there2, k2) = >>=-eq-ok (loaded a.role) _ k1 in
      let (l3, there3, k3) = >>=-eq-ok (loaded a.member) _ k2 in
      let (l4, there4, k4) = >>=-eq-ok (loaded a.token_validator) _ k3 in
      let (l5, there5, k5) = >>=-eq-ok (loaded a.new_token_to_whitelist) _ k4 in
      let (w, opened, k6) =
        >>=-eq-ok
          (init rt (Add.seeds a) whitelisted_token_space zero_whitelisted_token a.whitelisted_token)
          _ k5 in
      let (u1, controller, h1) = >>=-eq-ok (check_access_controller rt a.access_controller) _ k6 in
      let (u2, role, h2) =
        >>=-eq-ok (check_role_account rt a.access_controller (as_str admin) a.role) _ h1 in
      let (u3, member, h3) = >>=-eq-ok (check_member rt a.role a.admin a.member) _ h2 in
      let (u4, validator, h4) =
        >>=-eq-ok (check_token_validator rt a.access_controller a.token_validator) _ h3 in
      let (u5, mint, h6) = >>=-eq-ok (check_mint a.new_token_to_whitelist) _ h4 in
      let done : record a { whitelisted_token = w } ≡ s = ground (arith, h6) in
      subst (Ready a) done (record {
        same = refl;
        controller = controller;
        role = role;
        member = member;
        validator = validator;
        mint = mint;
        opened = opened;
      })

  -- What the handler writes.
  listed : AddTokenToWhitelist → Account WhitelistedToken → ℕ → AddTokenToWhitelist
  listed a w token_precision = record a {
    whitelisted_token = set_inner w (record {
      token_mint = a.new_token_to_whitelist.address;
      token_decimals = a.new_token_to_whitelist.inner.decimals;
      token_precision = token_precision;
      bump = canonical_bump rt (Add.seeds a);
    });
  }

  add-listed :
      (a a' : AddTokenToWhitelist) (token_precision : ℕ)
      → add_token_to_whitelist rt a token_precision ≡ ok a'
      → (s : AddTokenToWhitelist) × (Ready a s)
        × (a' ≡ listed a s.whitelisted_token token_precision)
  unfolding add_token_to_whitelist Add.handler listed
  add-listed a a' token_precision h =
      let (s, ready, h1) = >>=-eq-ok (Add.try_accounts rt a) _ h in
      let r = add-Ready a s ready in (s, r, ground (arith, r.same))

  decimals-pos :
      (a : AddTokenToWhitelist)
      → check_mint a.new_token_to_whitelist ≡ ok tt
      → 0 < a.new_token_to_whitelist.inner.decimals
  unfolding check_mint
  decimals-pos a h = ground arith

  listing :
      (a : AddTokenToWhitelist) (w : Account WhitelistedToken)
      → w.exists ≡ true
      → (rt.find_program_address (Add.seeds a)).0 ≡ w.address
      → w.inner.bump ≡ canonical_bump rt (Add.seeds a)
      → check_whitelisted_token rt a.token_validator a.new_token_to_whitelist w ≡ ok tt
  unfolding check_whitelisted_token
  listing a w there derived bump = rw (there, bump) (seeds_bump-canonical rt _ _ derived)

  -- An addition, by what it leaves.
  pub record Listed (a a' : AddTokenToWhitelist) : Type 0 where
    pub fresh : a.whitelisted_token.exists ≡ false
    pub there : a'.whitelisted_token.exists ≡ true
    pub mint : a'.whitelisted_token.inner.token_mint ≡ a.new_token_to_whitelist.address
    pub checked :
        check_whitelisted_token rt a.token_validator a.new_token_to_whitelist a'.whitelisted_token
        ≡ ok tt

  pub add_token_to_whitelist-Listed :
      (a a' : AddTokenToWhitelist) (token_precision : ℕ)
      → add_token_to_whitelist rt a token_precision ≡ ok a'
      → Listed a a'
  unfolding listed
  add_token_to_whitelist-Listed a a' token_precision h =
      let (s, r, wrote) = add-listed a a' token_precision h in
      let i =
        init-effect rt _ _ zero_whitelisted_token a.whitelisted_token s.whitelisted_token
          r.opened in
      rw wrote (record {
        fresh = i.0;
        there = i.1;
        mint = refl;
        checked =
            listing a
              (set_inner s.whitelisted_token (record {
                token_mint = a.new_token_to_whitelist.address;
                token_decimals = a.new_token_to_whitelist.inner.decimals;
                token_precision = token_precision;
                bump = canonical_bump rt (Add.seeds a);
              }))
              i.1 i.4 refl;
      })

  -- A token that was added to the whitelist is what `remove_token_from_whitelist` asks for: after
  -- an addition that succeeds, the token was not listed before, has decimals and is listed with the
  -- given precision; a removal by the same member of the admin role succeeds and leaves it
  -- unlisted.
  pub add_then_remove :
      (a a' : AddTokenToWhitelist) (token_precision : ℕ)
      → add_token_to_whitelist rt a token_precision ≡ ok a'
      → (a.whitelisted_token.exists ≡ false)
        × (0 < a.new_token_to_whitelist.inner.decimals)
        × (a'.whitelisted_token.inner.token_mint ≡ a.new_token_to_whitelist.address)
        × (a'.whitelisted_token.inner.token_precision ≡ token_precision)
        × (remove_token_from_whitelist rt (unlisted a')
            ≡ ok (record (unlisted a') { whitelisted_token = close a'.whitelisted_token }))
  unfolding remove_token_from_whitelist Remove.try_accounts listed
  add_then_remove a a' token_precision h =
      let (s, r, wrote) = add-listed a a' token_precision h in
      let i =
        init-effect rt _ _ zero_whitelisted_token a.whitelisted_token s.whitelisted_token
          r.opened in
      rw wrote (
        i.0,
        decimals-pos a r.mint,
        refl,
        refl,
        rw
            (
              r.controller,
              r.role,
              r.member,
              r.validator,
              r.mint,
              listing a
                  (set_inner s.whitelisted_token (record {
                    token_mint = a.new_token_to_whitelist.address;
                    token_decimals = a.new_token_to_whitelist.inner.decimals;
                    token_precision = token_precision;
                    bump = canonical_bump rt (Add.seeds a);
                  }))
                  i.1 i.4 refl,
              check_access_controller-exists rt a.access_controller r.controller,
              check_role_account-exists rt a.access_controller (as_str admin) a.role r.role,
              check_member-exists rt a.role a.admin a.member r.member,
              check_token_validator-exists rt a.access_controller a.token_validator r.validator,
              check_mint-exists a.new_token_to_whitelist r.mint,
              i.1,
            )
            refl,
      )

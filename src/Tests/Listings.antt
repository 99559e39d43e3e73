-- ===== src/Tests/Listings.antt =====
-- The whitelist, and a ledger with its positions.
use ithaca_smart_contract_an.Base.{
  ℕ, ◌<◌, ◌≡◌, List, [], ◌∷◌, true, false, refl, ◌↔◌, str_eq, if◌then◌else◌, ◌==◌,
}
use ithaca_smart_contract_an.Program.Errors.{ok}
use ithaca_smart_contract_an.Program.Roles.{as_str, admin}
use ithaca_smart_contract_an.Program.State.{Role, Member, zero_whitelisted_token, zero_ledger}
use ithaca_smart_contract_an.Program.Runtime.{text, key, init, close, Account}
use ithaca_smart_contract_an.Program.Checks.{
  check_access_controller, check_role_account, check_member, check_token_validator, check_mint,
}
use ithaca_smart_contract_an.TokenValidator.Add
use ithaca_smart_contract_an.TokenValidator.Add.{AddTokenToWhitelist, add_token_to_whitelist}
use ithaca_smart_contract_an.TokenValidator.Remove.{remove_token_from_whitelist}
use ithaca_smart_contract_an.TokenValidator.Listing.{unlisted, add_then_remove}
use ithaca_smart_contract_an.TokenValidator.Whitelist
use ithaca_smart_contract_an.TokenValidator.Whitelist.{Listings, adds, listings-Represents}
use ithaca_smart_contract_an.Ledger.Init
use ithaca_smart_contract_an.Ledger.Init.{InitLedger}
use ithaca_smart_contract_an.Ledger.Init.Multipliers.{Fits, opened, init_ledger_iff}
use ithaca_smart_contract_an.AccessControl.Check.{check_role}
use ithaca_smart_contract_an.Authority.{asked_of, claimed, lists, Ran-check_role}
use ithaca_smart_contract_an.Openings.{slot, IsOpened, Opens, listing, Opens-once}
use ithaca_smart_contract_an.Tests.Concrete
use ithaca_smart_contract_an.Tests.Concrete.{
  Table, digest, rt, tp, result, account, missing, boss, ac_address, tv_address, controller,
  validator, usdc, whitelisted_usdc, whitelisted_address, moved,
}

abbrev role_address : ℕ
role_address = digest (text "role" ∷ key ac_address ∷ text "DEFAULT_ADMIN_ROLE" ∷ [])

abbrev role : Account Role
role =
    account role_address 41 (record { role = "DEFAULT_ADMIN_ROLE"; member_count = 1; bump = 255 })

abbrev member : Account Member
member =
    account (digest (text "member" ∷ key role_address ∷ key boss ∷ [])) 41
      (record { member = boss; bump = 255 })

abbrev adding : AddTokenToWhitelist
adding = record {
  admin = boss;
  access_controller = controller;
  role = role;
  member = member;
  token_validator = validator;
  new_token_to_whitelist = usdc;
  whitelisted_token = missing whitelisted_address zero_whitelisted_token;
}

abbrev added : AddTokenToWhitelist
added = result adding (add_token_to_whitelist rt adding 4)

added_ok : add_token_to_whitelist rt adding 4 ≡ ok added
unfolding add_token_to_whitelist Add.try_accounts Add.handler init as_str check_access_controller
    check_role_account check_member check_token_validator check_mint
added_ok = refl

add_then_remove_example :
    (adding.whitelisted_token.exists ≡ false)
    × (0 < 6)
    × (added.whitelisted_token.inner.token_mint ≡ 21)
    × (added.whitelisted_token.inner.token_precision ≡ 4)
    × (remove_token_from_whitelist rt (unlisted added)
        ≡ ok (record (unlisted added) { whitelisted_token = close added.whitelisted_token }))
add_then_remove_example = add_then_remove rt adding added 4 added_ok

-- A ledger of two tokens of six decimals, whitelisted with these precisions.
abbrev opening : ℕ → ℕ → InitLedger
opening p q = record {
  admin = boss;
  access_controller = controller;
  role = role;
  member = member;
  token_validator = validator;
  fundlock = Concrete.fundlock;
  underlying_token = usdc;
  whitelisted_underlying_token = record whitelisted_usdc {
    inner = record whitelisted_usdc.inner { token_precision = p };
  };
  strike_token = account 22 82 (record { decimals = 6 });
  whitelisted_strike_token = record whitelisted_usdc {
    inner = record whitelisted_usdc.inner { token_precision = q };
  };
  ledger = missing 60 zero_ledger;
}

init_ledger_iff_example : (Init.handler (opening 4 6) 255 ≡ ok (opened (opening 4 6) 255)) ↔ (
    (str_eq "DEFAULT_ADMIN_ROLE" (as_str admin) ≡ true)
    × Fits 6 4
    × Fits 6 6
    × (opened (opening 4 6) 255 ≡ opened (opening 4 6) 255))
init_ledger_iff_example = init_ledger_iff (opening 4 6) (opened (opening 4 6) 255) 255

Ran-check_role_example :
    check_role rt
      (asked_of rt (claimed boss (as_str admin) controller role member) 3)
      (as_str admin)
      boss
    ≡ ok tt
Ran-check_role_example = Ran-check_role rt 3 (lists adding added 4 added_ok)

-- The whitelist before the addition is empty.
abbrev listings_before : Listings
listings_before k = missing whitelisted_address zero_whitelisted_token

abbrev listings_after : Listings
listings_after k = if k == 21 then added.whitelisted_token else listings_before k

before-Represents : Whitelist.Represents rt validator listings_before []
before-Represents = record {
  distinct = tt;
  exactly = λ k. refl;
  named = λ k h. cc;
  checked = λ token h. cc;
}

abbrev adding_step : Whitelist.Step rt validator listings_before listings_after
adding_step = adds adding added 4 added_ok refl refl (λ k. refl)

listings-Represents_example :
    (ks : List ℕ) × Whitelist.Follows rt validator adding_step [] ks
    × Whitelist.Represents rt validator listings_after ks
listings-Represents_example =
    listings-Represents rt validator {w = listings_before} {w' = listings_after} [] adding_step
      before-Represents

Opens-once_example :
    IsOpened rt (slot adding.whitelisted_token) (slot added.whitelisted_token)
    × (¬ Opens rt (slot added.whitelisted_token) (slot added.whitelisted_token))
Opens-once_example = Opens-once rt (listing adding added 4 added_ok)

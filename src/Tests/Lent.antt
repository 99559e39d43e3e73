-- ===== src/Tests/Lent.antt =====
-- A vault with two clients, of whom one lends to Kamino and redeems.
use ithaca_smart_contract_an.Base.{◌+◌, ◌<◌, ◌↔◌, arith, ◌≡◌, [], ◌∷◌, refl}
use ithaca_smart_contract_an.Program.Errors.{ok}
use ithaca_smart_contract_an.Program.Words.{add_u64, sub_u64}
use ithaca_smart_contract_an.Program.Runtime.{text, key}
use ithaca_smart_contract_an.Program.Checks.{
  check_access_controller, check_token_validator, check_fundlock, check_mint,
  check_whitelisted_token,
}
use ithaca_smart_contract_an.Fundlock.History.{World, IsSolvent, claims}
use ithaca_smart_contract_an.Kamino.Accounts.{
  KaminoAccounts, load_client_accounts, check_client_accounts, check_reserve_collateral_token,
  load_kamino_program, check_instructions,
}
use ithaca_smart_contract_an.Kamino.Deposit
use ithaca_smart_contract_an.Kamino.Deposit.{deposit_kamino, open_collateral_vault}
use ithaca_smart_contract_an.Kamino.Redeem
use ithaca_smart_contract_an.Kamino.Redeem.{redeem_kamino}
use ithaca_smart_contract_an.Kamino.Success.{
  CanLend, lent_out, deposit_kamino_iff, CanRedeem, redeemed, redeem_kamino_iff,
}
use ithaca_smart_contract_an.Exchange.Lending as Lend
use ithaca_smart_contract_an.Exchange.Lending.{
  exchange, lends, redeems, with_balance, all_unbacked, all_gained, IsServed, IsAccounted,
  lending_history-IsAccounted, lending_history-uncovered,
}
use ithaca_smart_contract_an.Program.Runtime.{load_programs}
use ithaca_smart_contract_an.Tests.Concrete.{digest, Table, rt, tp, result, account}
use ithaca_smart_contract_an.Tests.Fundlock.{fresh, vault, balance_address}
use ithaca_smart_contract_an.Tests.Lending.{kamino}
use ithaca_smart_contract_an.Tests.Lending
use ithaca_smart_contract_an.Tests.Updates.{payer, receiver}
use ithaca_smart_contract_an.Tests.Histories.{
  on_vault, before_update, two_hundred, before_update-IsServed,
}

-- The first client lends 80 of the vault to Kamino, and gets 160 back.
abbrev lender : KaminoAccounts
lender = record Lending.client {
  fundlock_token_vault = account vault 165 (record { mint = 21; owner = fresh.fundlock.address });
  client_balance = account balance_address 121 payer.balance_u;
  fundlock_collateral_vault =
      account (digest (text "fundlock_collateral_vault" ∷ key vault ∷ key 21 ∷ [])) 165
        (record { mint = 21; owner = fresh.fundlock.address });
}

abbrev lent : KaminoAccounts × Table
lent = result (lender, two_hundred) (deposit_kamino tp kamino rt lender two_hundred 80)

lent_ok : deposit_kamino tp kamino rt lender two_hundred 80 ≡ ok (lent.0, lent.1)
unfolding deposit_kamino Deposit.try_accounts Deposit.handler open_collateral_vault
    load_client_accounts check_client_accounts check_reserve_collateral_token load_kamino_program
    check_instructions check_access_controller check_token_validator check_fundlock check_mint
    check_whitelisted_token add_u64 sub_u64 load_programs
lent_ok = refl

abbrev back : KaminoAccounts × Table
back = result lent (redeem_kamino tp kamino rt lent.0 lent.1 80)

back_ok : redeem_kamino tp kamino rt lent.0 lent.1 80 ≡ ok (back.0, back.1)
unfolding redeem_kamino deposit_kamino Deposit.try_accounts Redeem.try_accounts Redeem.handler
    Deposit.handler open_collateral_vault load_client_accounts check_client_accounts
    check_reserve_collateral_token load_kamino_program check_instructions check_access_controller
    check_token_validator check_fundlock check_mint check_whitelisted_token add_u64 sub_u64
    load_programs
back_ok = refl

-- The vault once the first client's balance is the one of a Kamino instruction.
abbrev with_lender : KaminoAccounts × Table → World Table
with_lender x = record {
  tokens = x.1;
  clients = with_balance (on_vault 40 41 payer) x.0 ∷ on_vault 60 61 receiver ∷ [];
}

lent_vault : lent.0.fundlock_token_vault.address ≡ vault
unfolding deposit_kamino Deposit.try_accounts Deposit.handler open_collateral_vault
    load_client_accounts check_client_accounts check_reserve_collateral_token load_kamino_program
    check_instructions check_access_controller check_token_validator check_fundlock check_mint
    check_whitelisted_token add_u64 sub_u64 load_programs
lent_vault = refl

abbrev lending_step : Lend.Step tp kamino rt vault (before_update tp two_hundred) (with_lender lent)
lending_step =
    lends lender lent.0 80
      (record {
        xs = [];
        a = on_vault 40 41 payer;
        ys = on_vault 60 61 receiver ∷ [];
        before = refl;
        same_balance = refl;
        same_vault = refl;
        after = refl;
      })
      lent_ok

abbrev redeeming_step : Lend.Step tp kamino rt vault (with_lender lent) (with_lender back)
redeeming_step =
    redeems lent.0 back.0 80
      (record {
        xs = [];
        a = with_balance (on_vault 40 41 payer) lent.0;
        ys = on_vault 60 61 receiver ∷ [];
        before = refl;
        same_balance = refl;
        same_vault = lent_vault;
        after = refl;
      })
      back_ok

abbrev lending_history :
    Lend.Reach tp kamino rt vault (before_update tp two_hundred) (with_lender back)
lending_history = Lend.next (Lend.next Lend.here lending_step) redeeming_step

lending_history-IsAccounted_example :
    IsAccounted tp kamino rt vault
      (before_update tp two_hundred)
      (with_lender back)
      (all_unbacked tp kamino rt vault lending_history)
      (all_gained tp kamino rt vault lending_history)
lending_history-IsAccounted_example =
    lending_history-IsAccounted tp kamino rt vault lending_history before_update-IsServed

nothing_gained : all_gained tp kamino rt vault lending_history ≡ 0
unfolding redeem_kamino deposit_kamino Deposit.try_accounts Redeem.try_accounts Redeem.handler
    Deposit.handler open_collateral_vault load_client_accounts check_client_accounts
    check_reserve_collateral_token load_kamino_program check_instructions check_access_controller
    check_token_validator check_fundlock check_mint check_whitelisted_token add_u64 sub_u64
    load_programs
nothing_gained = refl

some_lent : 0 < all_unbacked tp kamino rt vault lending_history
unfolding redeem_kamino deposit_kamino Deposit.try_accounts Redeem.try_accounts Redeem.handler
    Deposit.handler open_collateral_vault load_client_accounts check_client_accounts
    check_reserve_collateral_token load_kamino_program check_instructions check_access_controller
    check_token_validator check_fundlock check_mint check_whitelisted_token add_u64 sub_u64
    load_programs
some_lent = omega arith

lending_history-uncovered_example :
    (claims (with_lender back).clients
      ≡ tp.amount back.1 vault + all_unbacked tp kamino rt vault lending_history)
    × (¬ IsSolvent tp rt vault (with_lender back))
lending_history-uncovered_example =
    lending_history-uncovered tp kamino rt vault lending_history before_update-IsServed refl
      nothing_gained some_lent

deposit_kamino_iff_example :
    (deposit_kamino tp kamino rt lender two_hundred 80 ≡ ok (lent.0, lent.1)) ↔ (
      (ready : KaminoAccounts) × (s1 : Table) × CanLend tp kamino rt lender ready two_hundred s1
        lent.1 80
      × (lent.0 ≡ lent_out tp kamino rt ready s1 lent.1))
deposit_kamino_iff_example = deposit_kamino_iff tp kamino rt lender two_hundred 80 lent.0 lent.1

redeem_kamino_iff_example : (redeem_kamino tp kamino rt lent.0 lent.1 80 ≡ ok (back.0, back.1)) ↔ (
    CanRedeem tp kamino rt lent.0 lent.1 back.1 80
    × (back.0 ≡ redeemed tp kamino rt lent.0 lent.1 back.1 80))
redeem_kamino_iff_example = redeem_kamino_iff tp kamino rt lent.0 lent.1 80 back.0 back.1

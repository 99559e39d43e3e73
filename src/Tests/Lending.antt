-- ===== src/Tests/Lending.antt =====
-- A client who lends to Kamino and redeems.
use ithaca_smart_contract_an.Base.{ℕ, ◌+◌, ◌*◌, ◌≡◌, ◌==◌, some, refl, if◌then◌else◌}
use ithaca_smart_contract_an.Program.Errors.{ok}
use ithaca_smart_contract_an.Program.Words.{add_u64, sub_u64}
use ithaca_smart_contract_an.Program.State.{zero_client_balance, Pubkey}
use ithaca_smart_contract_an.Kamino.Accounts.{KaminoAccounts, KaminoProgram}
use ithaca_smart_contract_an.Kamino.Deposit
use ithaca_smart_contract_an.Kamino.Redeem
use ithaca_smart_contract_an.Kamino.Balances.{deposit_then_redeem}
use ithaca_smart_contract_an.Tests.Concrete
use ithaca_smart_contract_an.Tests.Concrete.{
  Table, digest, rt, tp, result, account, missing, boss, ac_address, tv_address, controller,
  validator, usdc, whitelisted_usdc, whitelisted_address, moved,
}

-- A Kamino that gives one unit of collateral for one of liquidity, and two of liquidity for one of
-- collateral.
abbrev minted : Table → Pubkey → ℕ → Table
minted s k n j = if j == k then s j + n else s j

abbrev pub kamino : KaminoProgram Table
kamino = record {
  id = 90;
  instructions_id = 91;
  deposit_reserve_liquidity = λ s a n.
      some (minted (moved s a.user_liquidity a.reserve_liquidity_supply n) a.user_collateral n);
  redeem_reserve_collateral = λ s a n.
      some
        (moved (moved s a.user_collateral 0 n) a.reserve_liquidity_supply a.user_liquidity (n * 2));
}

-- A client whose balance is 100.
abbrev pub client : KaminoAccounts
client = record {
  client = 40;
  access_controller = controller;
  token_validator = validator;
  fundlock = Concrete.fundlock;
  token = usdc;
  whitelisted_token = whitelisted_usdc;
  fundlock_token_vault = account 61 165 (record { mint = 21; owner = 62 });
  client_ata = account 41 165 (record { mint = 21; owner = 40 });
  client_balance = account 63 121 (record zero_client_balance { amount = 100 });
  system_program = 0;
  token_program = 64;
  reserve = 65;
  lending_market = 66;
  lending_market_authority = 67;
  reserve_liquidity_supply = 68;
  reserve_collateral_token = usdc;
  fundlock_collateral_vault = account 69 165 (record { mint = 21; owner = 62 });
  kamino_program = 90;
  instructions = 91;
}

abbrev start : Table
start k = if k == 61 then 100 else if k == 68 then 1000 else 0

abbrev lent : KaminoAccounts × Table
lent = result (client, start) (Deposit.handler tp kamino client start 80)

lent_ok : Deposit.handler tp kamino client start 80 ≡ ok (lent.0, lent.1)
unfolding Deposit.handler add_u64 sub_u64
lent_ok = refl

abbrev back : KaminoAccounts × Table
back = result lent (Redeem.handler tp kamino lent.0 lent.1 80)

back_ok : Redeem.handler tp kamino lent.0 lent.1 80 ≡ ok (back.0, back.1)
unfolding Redeem.handler Deposit.handler add_u64 sub_u64
back_ok = refl

deposit_then_redeem_example :
    back.0.client_balance.inner.amount + lent.1 (lent.0.fundlock_token_vault.address)
    ≡ 100 + back.1 (lent.0.fundlock_token_vault.address)
deposit_then_redeem_example =
    deposit_then_redeem tp kamino client lent.0 back.0 start lent.1 lent.1 back.1 80 80 lent_ok
      back_ok

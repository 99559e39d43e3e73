-- ===== src/Tests/Fundlock.antt =====
-- A client who deposits, queues a withdrawal, and has it released.
use ithaca_smart_contract_an.Base.{
  ℕ, ◌+◌, ◌≡◌, ◌≢◌, ◌==◌, [], ◌∷◌, if◌then◌else◌, false, refl, arith, pos, ◌+ℤ◌, ◌<ℤ◌, is_zero, ◌↔◌,
}
use ithaca_smart_contract_an.Program.Errors.{ok}
use ithaca_smart_contract_an.Program.Words.{add_i64}
use ithaca_smart_contract_an.Program.State.{
  zero_client_balance, zero_withdrawals, zero_fundlock, zero_role, zero_member,
}
use ithaca_smart_contract_an.Program.Runtime.{init_if_needed, text, key}
use ithaca_smart_contract_an.Fundlock.Accounts.{FundlockAccounts, check_listing}
use ithaca_smart_contract_an.Fundlock.Deposit
use ithaca_smart_contract_an.Fundlock.Deposit.{deposit_fundlock, open_vault}
use ithaca_smart_contract_an.Fundlock.Withdraw
use ithaca_smart_contract_an.Fundlock.Withdraw.{withdraw_fundlock}
use ithaca_smart_contract_an.Fundlock.Release
use ithaca_smart_contract_an.Fundlock.Release.{release_fundlock}
use ithaca_smart_contract_an.Fundlock.Invariant.{
  IsValid, withdraw_fundlock-IsValid, deposit_fundlock-IsValid,
}
use ithaca_smart_contract_an.Fundlock.History.{
  World, Step, Reach, IsSolvent, withdraws, releases, here, next,
}
use ithaca_smart_contract_an.Fundlock.Lifecycle.{withdraw_then_release}
use ithaca_smart_contract_an.Fundlock.Init
use ithaca_smart_contract_an.Fundlock.Init.{InitFundlock}
use ithaca_smart_contract_an.Fundlock.Init.Locks.{locked, init_fundlock_iff}
use ithaca_smart_contract_an.Program.Runtime.{load_programs}
use ithaca_smart_contract_an.Tests.Concrete.{
  moved, Table, digest, rt, tp, result, account, missing, controller, validator, fundlock_address,
  usdc, whitelisted_usdc,
}
use ithaca_smart_contract_an.Tests.Concrete

abbrev client : ℕ
client = 40

abbrev pub vault : ℕ
vault = digest (text "fundlock_token_vault" ∷ key fundlock_address ∷ key 21 ∷ [])

abbrev pub balance_address : ℕ
balance_address = digest (text "client_balance" ∷ key vault ∷ key 41 ∷ [])

abbrev pub queue_address : ℕ
queue_address = digest (text "withdrawals" ∷ key fundlock_address ∷ key balance_address ∷ [])

-- The accounts of a client before the first deposit.
abbrev pub fresh : FundlockAccounts
fresh = record {
  client = client;
  access_controller = controller;
  token_validator = validator;
  fundlock = Concrete.fundlock;
  token = usdc;
  whitelisted_token = whitelisted_usdc;
  fundlock_token_vault = missing vault (record { mint = 0; owner = 0 });
  client_balance = missing balance_address zero_client_balance;
  client_ata = account 41 165 (record { mint = 21; owner = client });
  withdrawals = missing queue_address zero_withdrawals;
  system_program = 0;
  token_program = 64;
}

-- The client's own account holds 500 tokens.
abbrev pub start : Table
start k = if k == 41 then 500 else 0

abbrev pub deposited : FundlockAccounts × Table
deposited = result (fresh, start) (deposit_fundlock tp rt fresh start 100)

abbrev pub queued : FundlockAccounts
queued = result (deposited.0) (withdraw_fundlock rt deposited.0 (pos 1000) 30)

abbrev pub released : FundlockAccounts × Table
released = result (queued, deposited.1) (release_fundlock tp rt queued deposited.1 (pos 1300) 0)

pub deposited_ok : deposit_fundlock tp rt fresh start 100 ≡ ok deposited
unfolding deposit_fundlock Deposit.try_accounts open_vault Deposit.handler check_listing
    init_if_needed load_programs
deposited_ok = refl

pub queued_ok : withdraw_fundlock rt deposited.0 (pos 1000) 30 ≡ ok queued
unfolding withdraw_fundlock Withdraw.try_accounts Withdraw.handler deposit_fundlock
    Deposit.try_accounts open_vault Deposit.handler check_listing init_if_needed load_programs
queued_ok = refl

pub released_ok :
    release_fundlock tp rt queued deposited.1 (pos 1300) 0 ≡ ok (released.0, released.1)
unfolding release_fundlock Release.try_accounts Release.handler withdraw_fundlock
    Withdraw.try_accounts Withdraw.handler deposit_fundlock Deposit.try_accounts open_vault
    Deposit.handler check_listing init_if_needed add_i64 ◌+ℤ◌ load_programs
released_ok = refl

fresh-IsValid : IsValid fresh
fresh-IsValid e = cc

pub deposited-IsValid : IsValid deposited.0
deposited-IsValid =
    deposit_fundlock-IsValid tp rt fresh deposited.0 start deposited.1 100 deposited_ok
      fresh-IsValid

pub queued-IsValid : IsValid queued
queued-IsValid =
    withdraw_fundlock-IsValid rt deposited.0 queued (pos 1000) 30 queued_ok deposited-IsValid

pub vault_differs : 41 ≢ vault
vault_differs e = absurd (omega (arith, e))

-- The world with this one client, and what becomes of it.
abbrev pub world : FundlockAccounts → Table → World Table
world a s = record { tokens = s; clients = a ∷ [] }

pub history : Reach tp rt vault (world deposited.0 deposited.1) (world released.0 released.1)
history =
    let first : Step tp rt vault (world deposited.0 deposited.1) (world queued deposited.1) =
      withdraws [] deposited.0 queued [] (pos 1000) 30 refl queued_ok refl refl in
    next (next here first) (releases [] queued released.0 [] (pos 1300) 0 refl released_ok refl)

pub deposited-IsSolvent : IsSolvent tp rt vault (world deposited.0 deposited.1)
unfolding deposit_fundlock Deposit.try_accounts open_vault Deposit.handler check_listing
    init_if_needed load_programs
deposited-IsSolvent = record { members = ((refl, refl, vault_differs), tt); covered = omega arith }

handled : Withdraw.handler deposited.0 (pos 1000) 30 ≡ ok queued
unfolding withdraw_fundlock Withdraw.try_accounts Withdraw.handler deposit_fundlock
    Deposit.try_accounts open_vault Deposit.handler check_listing init_if_needed load_programs
handled = refl

paid : Table
paid = moved deposited.1 (deposited.0.fundlock_token_vault.address) 41 30

withdraw_then_release_example :
    (a2 : FundlockAccounts) × (Release.handler tp queued deposited.1 (pos 1300) 0 ≡ ok (a2, paid))
    × (a2.withdrawals.inner.withdrawal_queue ≡ [])
    × (a2.withdrawals.inner.active_withdrawals_amount ≡ 0)
    × (a2.client_balance.inner.amount + 30 ≡ 100)
unfolding withdraw_fundlock Withdraw.try_accounts Withdraw.handler deposit_fundlock
    Deposit.try_accounts open_vault Deposit.handler check_listing init_if_needed ◌+ℤ◌ paid
    load_programs
withdraw_then_release_example =
    withdraw_then_release tp deposited.0 queued deposited.1 paid (pos 1000) (pos 1300) 30 handled
      refl refl (omega arith, omega arith) (omega arith) (omega arith) refl

opening : InitFundlock
opening = record {
  caller = 9;
  access_controller = controller;
  role = missing 0 zero_role;
  member = missing 0 zero_member;
  token_validator = validator;
  fundlock = missing fundlock_address zero_fundlock;
}

init_fundlock_iff_example :
    (Init.handler opening (pos 100) (pos 604800) 255
      ≡ ok (locked opening (pos 100) (pos 604800) 255))
    ↔ ((is_zero (pos 100) ≡ false) × (pos 604800 <ℤ pos 604800))
init_fundlock_iff_example = init_fundlock_iff opening (pos 100) (pos 604800) 255

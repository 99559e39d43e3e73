-- ===== src/Tests/Payout.antt =====
-- The client of the fundlock's example, whose queue is paid out, and what the fundlock promises of
-- the amounts and of a withdrawal.
use ithaca_smart_contract_an.Base.{
  ◌+◌, ◌<ℤ◌, some, get_elem?, ◌≤◌, ◌≡◌, ◌↔◌, ◌==◌, ==_iff, [], length, All, if◌then◌else◌, refl,
  arith, pos, ◌+ℤ◌, true, le→leb,
}
use ithaca_smart_contract_an.Program.Errors.{ok}
use ithaca_smart_contract_an.Program.Words.{add_i64}
use ithaca_smart_contract_an.Program.Space.{withdrawals_len}
use ithaca_smart_contract_an.Program.Runtime.{init_if_needed}
use ithaca_smart_contract_an.Fundlock.Accounts.{FundlockAccounts, check_listing}
use ithaca_smart_contract_an.Fundlock.Deposit
use ithaca_smart_contract_an.Fundlock.Deposit.{deposit_fundlock, open_vault}
use ithaca_smart_contract_an.Fundlock.Withdraw
use ithaca_smart_contract_an.Fundlock.Withdraw.{withdraw_fundlock}
use ithaca_smart_contract_an.Fundlock.Release
use ithaca_smart_contract_an.Fundlock.History
use ithaca_smart_contract_an.Fundlock.History.{withdraws}
use ithaca_smart_contract_an.Exchange.History.{Step, Reach, here, next, fundlock}
use ithaca_smart_contract_an.Exchange.Times.{TimelyClient}
use ithaca_smart_contract_an.Exchange.Clock
use ithaca_smart_contract_an.Exchange.Clock.{
  At, passes, steps, IsClocked, timed_history-IsClocked, release_in_order,
}
use ithaca_smart_contract_an.Fundlock.Credits.{CanDeposit, paid_in, deposit_fundlock_iff}
use ithaca_smart_contract_an.Fundlock.Drain.{drain, Pays, IsUnlocked}
use ithaca_smart_contract_an.Exchange.Payout.{payout_in_full}
use ithaca_smart_contract_an.Fundlock.Success.{CanWithdraw, withdrawn, withdraw_fundlock_iff}
use ithaca_smart_contract_an.Program.State.{WithdrawalState}
use ithaca_smart_contract_an.Fundlock.Lifecycle
use ithaca_smart_contract_an.Fundlock.Release.{release_fundlock}
use ithaca_smart_contract_an.Fundlock.Releases.{CanRelease, release_fundlock_iff}
use ithaca_smart_contract_an.Program.Runtime.{load_programs}
use ithaca_smart_contract_an.Tests.Concrete.{result, Table, moved, rt, tp}
use ithaca_smart_contract_an.Tests.Fundlock.{
  fresh, start, vault, deposited, queued, released, queued_ok, world, deposited-IsSolvent,
  deposited-IsValid,
}

waiting : Reach tp rt vault (world deposited.0 deposited.1) (world queued deposited.1)
waiting =
    let first : History.Step tp rt vault (world deposited.0 deposited.1)
        (world queued deposited.1) =
      withdraws [] deposited.0 queued [] (pos 1000) 30 refl queued_ok refl refl in
    next here (fundlock first)

queued_there : queued.withdrawals.exists ≡ true
unfolding withdraw_fundlock Withdraw.try_accounts Withdraw.handler deposit_fundlock
    Deposit.try_accounts open_vault Deposit.handler check_listing init_if_needed load_programs
queued_there = refl

queued_checked : Release.try_accounts rt queued ≡ ok tt
unfolding withdraw_fundlock Withdraw.try_accounts Withdraw.handler deposit_fundlock
    Deposit.try_accounts open_vault Deposit.handler check_listing init_if_needed
    Release.try_accounts load_programs
queued_checked = refl

queued-IsUnlocked : All (IsUnlocked (pos 1300) queued) queued.withdrawals.inner.withdrawal_queue
unfolding withdraw_fundlock Withdraw.try_accounts Withdraw.handler deposit_fundlock
    Deposit.try_accounts open_vault Deposit.handler check_listing init_if_needed ◌+ℤ◌ load_programs
queued-IsUnlocked = (((omega arith, omega arith), omega arith), tt)

queued_fits : withdrawals_len queued.withdrawals.inner ≤ queued.withdrawals.space
unfolding withdraw_fundlock Withdraw.try_accounts Withdraw.handler deposit_fundlock
    Deposit.try_accounts open_vault Deposit.handler check_listing init_if_needed load_programs
queued_fits = omega arith

table-Pays : (a : FundlockAccounts) → Pays tp a
table-Pays a s n covered = (
  if a.fundlock_token_vault.address == a.client_ata.address
      then s
      else moved s a.fundlock_token_vault.address a.client_ata.address n,
  rw (le→leb n (s a.fundlock_token_vault.address) covered)
      (ground (arith, ==_iff a.fundlock_token_vault.address a.client_ata.address)),
)

payout_in_full_example :
    (a' : FundlockAccounts) × (s' : Table) × (drain tp rt
        (pos 1300)
        (length queued.withdrawals.inner.withdrawal_queue)
        queued
        deposited.1
      ≡ ok (a', s'))
    × (a'.withdrawals.inner.withdrawal_queue ≡ [])
    × (a'.withdrawals.inner.active_withdrawals_amount ≡ 0)
    × (a'.client_balance ≡ queued.client_balance)
    × (tp.amount s' queued.client_ata.address
        ≡ tp.amount deposited.1 queued.client_ata.address
          + queued.withdrawals.inner.active_withdrawals_amount)
payout_in_full_example =
    payout_in_full tp rt vault {w0 = world deposited.0 deposited.1} {w = world queued deposited.1}
      (pos 1300) [] queued [] waiting
      (record { solvent = deposited-IsSolvent; valid = (deposited-IsValid, tt) }) refl queued_there
      queued_checked queued-IsUnlocked queued_fits (table-Pays queued)

deposited-TimelyClient : TimelyClient (pos 900) deposited.0
unfolding deposit_fundlock Deposit.try_accounts open_vault Deposit.handler check_listing
    init_if_needed load_programs
deposited-TimelyClient e = record { in_order = tt; past = tt }

withdraw_fundlock_iff_example :
    (withdraw_fundlock rt deposited.0 (pos 1000) 30 ≡ ok queued)
    ↔ (CanWithdraw rt deposited.0 30 × (queued ≡ withdrawn deposited.0 (pos 1000) 30))
withdraw_fundlock_iff_example = withdraw_fundlock_iff rt deposited.0 (pos 1000) 30 queued

release_fundlock_iff_example :
    (release_fundlock tp rt queued deposited.1 (pos 1300) 0 ≡ ok (released.0, released.1)) ↔ (
      (w : WithdrawalState) × CanRelease tp rt queued deposited.1 released.1 (pos 1300) 0 w
      × (released.0 ≡ Lifecycle.released queued 0 w))
release_fundlock_iff_example =
    release_fundlock_iff tp rt queued deposited.1 (pos 1300) 0 released.0 released.1

deposit_fundlock_iff_example :
    (deposit_fundlock tp rt fresh start 100 ≡ ok (deposited.0, deposited.1)) ↔ (
      (ready : FundlockAccounts) × (s1 : Table) × CanDeposit tp rt fresh ready start s1 deposited.1
        100
      × (deposited.0 ≡ paid_in tp rt ready 100))
deposit_fundlock_iff_example = deposit_fundlock_iff tp rt fresh start 100 deposited.0 deposited.1

-- A withdrawal at 1000, and the world at 1300.
clocked :
    At tp rt vault (pos 900) (world deposited.0 deposited.1) (pos 1300) (world queued deposited.1)
clocked =
    let withdrawal : Step tp rt vault (world deposited.0 deposited.1) (world queued deposited.1) =
      fundlock (withdraws [] deposited.0 queued [] (pos 1000) 30 refl queued_ok refl refl) in
    passes (steps (passes Clock.start (omega arith)) withdrawal refl) (omega arith)

deposited-IsClocked : IsClocked tp rt vault (pos 900) (world deposited.0 deposited.1)
deposited-IsClocked = record {
  orderly = record { solvent = deposited-IsSolvent; valid = (deposited-IsValid, tt) };
  timely = (deposited-TimelyClient, tt);
}

timed_history-IsClocked_example : IsClocked tp rt vault (pos 1300) (world queued deposited.1)
timed_history-IsClocked_example = timed_history-IsClocked tp rt vault clocked deposited-IsClocked

-- A second withdrawal at 1100, which is released before the first at 1400.
abbrev queued_twice : FundlockAccounts
queued_twice = result queued (withdraw_fundlock rt queued (pos 1100) 20)

queued_twice_ok : withdraw_fundlock rt queued (pos 1100) 20 ≡ ok queued_twice
unfolding withdraw_fundlock Withdraw.try_accounts Withdraw.handler deposit_fundlock
    Deposit.try_accounts open_vault Deposit.handler check_listing init_if_needed load_programs
queued_twice_ok = refl

abbrev second_released : FundlockAccounts × Table
second_released =
    result (queued_twice, deposited.1)
      (release_fundlock tp rt queued_twice deposited.1 (pos 1400) 1)

second_released_ok :
    release_fundlock tp rt queued_twice deposited.1 (pos 1400) 1
    ≡ ok (second_released.0, second_released.1)
unfolding release_fundlock Release.try_accounts Release.handler withdraw_fundlock
    Withdraw.try_accounts Withdraw.handler deposit_fundlock Deposit.try_accounts open_vault
    Deposit.handler check_listing init_if_needed add_i64 ◌+ℤ◌ load_programs
second_released_ok = refl

clocked_twice :
    At tp rt vault
      (pos 900)
      (world deposited.0 deposited.1)
      (pos 1400)
      (world queued_twice deposited.1)
clocked_twice =
    let first : Step tp rt vault (world deposited.0 deposited.1) (world queued deposited.1) =
      fundlock (withdraws [] deposited.0 queued [] (pos 1000) 30 refl queued_ok refl refl) in
    let second : Step tp rt vault (world queued deposited.1) (world queued_twice deposited.1) =
      fundlock (withdraws [] queued queued_twice [] (pos 1100) 20 refl queued_twice_ok refl refl) in
    passes
      (steps (passes (steps (passes Clock.start (omega arith)) first refl) (omega arith)) second
        refl)
      (omega arith)

first_entry :
    get_elem? queued_twice.withdrawals.inner.withdrawal_queue 0
    ≡ some (record { amount = 30; timestamp = pos 1000 })
unfolding withdraw_fundlock Withdraw.try_accounts Withdraw.handler deposit_fundlock
    Deposit.try_accounts open_vault Deposit.handler check_listing init_if_needed load_programs
first_entry = refl

release_in_order_example : pos 1000 +ℤ queued_twice.fundlock.inner.release_lock <ℤ pos 1400
release_in_order_example =
    release_in_order tp rt vault [] queued_twice second_released.0 [] second_released.1 0 1
      (record { amount = 30; timestamp = pos 1000 }) clocked_twice deposited-IsClocked refl
      second_released_ok (omega arith) first_entry

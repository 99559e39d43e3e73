-- ===== src/Tests/Histories.antt =====
-- A vault with two clients, and an update of fund movements.
use mathlib.Core.List.Permᴰ.{nil, cons}
use ithaca_smart_contract_an.Base.{
  ℕ, ◌==◌, [], ◌∷◌, All, none, if◌then◌else◌, refl, arith, pos, pos_part, ◌≡◌, ◌+ℤ◌, ◌-ℤ◌, ◌*ℤ◌,
}
use ithaca_smart_contract_an.Program.Words.{IsU64}
use ithaca_smart_contract_an.Program.Tokens.{TokenProgram}
use ithaca_smart_contract_an.Fundlock.Accounts.{FundlockAccounts}
use ithaca_smart_contract_an.Fundlock.Amounts.{IsMachine}
use ithaca_smart_contract_an.Fundlock.History.{World}
use ithaca_smart_contract_an.Ledger.Movements.Clients.{Client, underlying}
use ithaca_smart_contract_an.Exchange.History.{
  Settles, change_by, here, next, settles, IsOrderly, settled_history-IsOrderly,
}
use ithaca_smart_contract_an.Exchange.Amounts.{settled_history-IsMachine}
use ithaca_smart_contract_an.Exchange.Lending.{IsServed}
use ithaca_smart_contract_an.Tests.Concrete.{Table, rt, tp, account}
use ithaca_smart_contract_an.Tests.Movements.{updating, balance, no_withdrawals-IsQueue}
use ithaca_smart_contract_an.Tests.Fundlock.{
  fresh, vault, balance_address, queue_address, vault_differs,
}
use ithaca_smart_contract_an.Tests.Lending.{kamino}
use ithaca_smart_contract_an.Tests.Updates.{
  payer, receiver, both, movements, after, params, remaining, borrowed_ok, resolved_ok, update_ok,
  movements-IsAligned,
}

-- The accounts of a client on the vault of the underlying token.
abbrev pub on_vault : ℕ → ℕ → Client → FundlockAccounts
on_vault who ata c = record fresh {
  client = who;
  fundlock_token_vault = account vault 165 (record { mint = 21; owner = fresh.fundlock.address });
  client_balance = account balance_address 121 c.balance_u;
  client_ata = account ata 165 (record { mint = 21; owner = who });
  withdrawals = account queue_address 133 c.withdrawals_u;
}

module _ {ℓ} {S : Type ℓ} (tp : TokenProgram S) (s : S) where
  abbrev pub before_update : World S
  before_update = record {
    tokens = s;
    clients = on_vault 40 41 payer ∷ on_vault 60 61 receiver ∷ [];
  }

  abbrev after_update : World S
  after_update = record {
    tokens = s;
    clients =
        on_vault 40 41 (record payer { balance_u = record balance { amount = 70 } })
        ∷ on_vault 60 61 (record receiver {
          balance_u = record balance { amount = 130; client = 60; client_ata = 61 };
        })
        ∷ [];
  }

  settlement : Settles tp rt vault underlying before_update after_update
  unfolding ◌-ℤ◌ ◌*ℤ◌ ◌+ℤ◌
  settlement = record {
    ctx = updating;
    t = pos 1050;
    accounts = remaining;
    params = params;
    movements = movements;
    chosen = before_update.clients;
    rest = [];
    cs = both;
    cs' = after;
    members = cons refl (cons refl nil);
    held = (refl, refl, refl, refl, (refl, refl, refl, refl, tt));
    borrowed = borrowed_ok;
    resolved = resolved_ok;
    run = update_ok;
    aligned = movements-IsAligned;
    small = omega arith;
    written = refl;
    same_tokens = refl;
  }

  no_change : pos_part (change_by tp rt vault settlement) ≡ 0
  unfolding settlement ◌-ℤ◌ ◌*ℤ◌ ◌+ℤ◌
  no_change = refl

abbrev pub two_hundred : Table
two_hundred k = if k == vault then 200 else 0

pub before_update-IsServed : IsServed tp kamino rt vault (before_update tp two_hundred)
before_update-IsServed = record {
  members = ((refl, refl, vault_differs), ((refl, refl, λ e. absurd (omega (arith, e))), tt));
  valid = ((λ e. no_withdrawals-IsQueue), ((λ e. no_withdrawals-IsQueue), tt));
}

before_update-IsOrderly : IsOrderly tp rt vault (before_update tp two_hundred)
before_update-IsOrderly = record {
  solvent = record { members = before_update-IsServed.members; covered = omega arith };
  valid = before_update-IsServed.valid;
}

settled_history-IsOrderly_example : IsOrderly tp rt vault (after_update tp two_hundred)
settled_history-IsOrderly_example =
    settled_history-IsOrderly tp rt vault
      (next here (settles underlying (settlement tp two_hundred) (no_change tp two_hundred)))
      before_update-IsOrderly

-- A token program whose vault holds 200 and that moves nothing.
abbrev still : TokenProgram (Unit {0})
still = record {
  amount = λ s k. if k == vault then 200 else 0;
  transfer = λ s from to authority n. none;
  initialize_account = λ s k mint owner. none;
  transfer_from = λ s from to authority n h ne. ground arith;
  transfer_to = λ s from to authority n h ne. ground arith;
  transfer_other = λ s from to authority n k h nf nt. ground arith;
  initialize_account_empty = λ s k mint owner h. ground arith;
  initialize_account_other = λ s k mint owner j h ne. ground arith;
}

still_small : (s : Unit {0}) (k : ℕ) → IsU64 (still.amount s k)
still_small s k = ground arith

still-IsOrderly : IsOrderly still rt vault (before_update still tt)
still-IsOrderly = record {
  solvent = record { members = before_update-IsServed.members; covered = omega arith };
  valid = before_update-IsServed.valid;
}

settled_history-IsMachine_example : All IsMachine (after_update still tt).clients
settled_history-IsMachine_example =
    settled_history-IsMachine still rt vault still_small
      (next here (settles underlying (settlement still tt) (no_change still tt))) still-IsOrderly
      (
        record {
          balance = omega arith;
          collateral = omega arith;
          active = omega arith;
          entries = tt;
        },
        (
          record {
            balance = omega arith;
            collateral = omega arith;
            active = omega arith;
            entries = tt;
          },
          tt,
        ),
      )

-- ===== src/Program/State.antt =====
-- state/: the accounts of the program, field by field, and the parameters of its instructions.
-- A public key is a number that is only compared; times and signed amounts are integers.
use ithaca_smart_contract_an.Base.{ℕ, ℤ, pos, List, [], String}

abbrev pub Pubkey : Type 0
Pubkey = ℕ

-- `Pubkey::default()`
abbrev pub default_pubkey : Pubkey
default_pubkey = 0

-- access_controller_state.rs
pub record AccessController : Type 0 where
  pub admin : Pubkey
  pub bump : ℕ

pub record Role : Type 0 where
  pub role : String
  pub member_count : ℕ
  pub bump : ℕ

pub record Member : Type 0 where
  pub member : Pubkey
  pub bump : ℕ

-- token_validator_state.rs
pub record TokenValidator : Type 0 where
  pub access_controller : Pubkey
  pub bump : ℕ

pub record WhitelistedToken : Type 0 where
  pub token_mint : Pubkey
  pub token_decimals : ℕ
  pub token_precision : ℕ
  pub bump : ℕ

-- fundlock_state.rs
pub record Fundlock : Type 0 where
  pub access_controller : Pubkey
  pub token_validator : Pubkey
  pub trade_lock : ℤ
  pub release_lock : ℤ
  pub bump : ℕ

pub record ClientBalance : Type 0 where
  pub amount : ℕ
  pub token : Pubkey
  pub client : Pubkey
  pub client_ata : Pubkey
  pub collateral_amount : ℕ
  pub bump : ℕ

pub record WithdrawalState : Type 0 where
  pub amount : ℕ
  pub timestamp : ℤ

pub record Withdrawals : Type 0 where
  pub withdrawal_queue : List WithdrawalState
  pub active_withdrawals_amount : ℕ
  pub client : Pubkey
  pub bump : ℕ

-- ledger_state.rs
pub record Ledger : Type 0 where
  pub access_controller : Pubkey
  pub token_validator : Pubkey
  pub fundlock : Pubkey
  pub underlying_token : Pubkey
  pub strike_token : Pubkey
  pub underlying_multiplier : ℤ
  pub strike_multiplier : ℤ
  pub bump : ℕ

pub record Contract : Type 0 where
  pub contract_id : ℕ
  pub bump : ℕ

pub record Position : Type 0 where
  pub contract_id : ℕ
  pub client : Pubkey
  pub size : ℕ
  pub bump : ℕ

pub record PositionsParam : Type 0 where
  pub contract_id : ℕ
  pub client : Pubkey
  pub size : ℕ

pub record FundMovementParam : Type 0 where
  pub client : Pubkey
  pub underlying_amount : ℤ
  pub strike_amount : ℤ

pub record FundMovementParamOptimized : Type 0 where
  pub underlying_amount : ℤ
  pub strike_amount : ℤ

-- What the program reads of the token program's accounts.
pub record Mint : Type 0 where
  pub decimals : ℕ

pub record TokenAccount : Type 0 where
  pub mint : Pubkey
  pub owner : Pubkey

-- The contents of an account that `init` has just allocated: every byte is zero.
abbrev pub zero_access_controller : AccessController
zero_access_controller = record { admin = default_pubkey; bump = 0 }

abbrev pub zero_role : Role
zero_role = record { role = ""; member_count = 0; bump = 0 }

abbrev pub zero_member : Member
zero_member = record { member = default_pubkey; bump = 0 }

abbrev pub zero_token_validator : TokenValidator
zero_token_validator = record { access_controller = default_pubkey; bump = 0 }

abbrev pub zero_whitelisted_token : WhitelistedToken
zero_whitelisted_token = record {
  token_mint = default_pubkey;
  token_decimals = 0;
  token_precision = 0;
  bump = 0;
}

abbrev pub zero_fundlock : Fundlock
zero_fundlock = record {
  access_controller = default_pubkey;
  token_validator = default_pubkey;
  trade_lock = pos 0;
  release_lock = pos 0;
  bump = 0;
}

abbrev pub zero_client_balance : ClientBalance
zero_client_balance = record {
  amount = 0;
  token = default_pubkey;
  client = default_pubkey;
  client_ata = default_pubkey;
  collateral_amount = 0;
  bump = 0;
}

abbrev pub zero_withdrawals : Withdrawals
zero_withdrawals = record {
  withdrawal_queue = [];
  active_withdrawals_amount = 0;
  client = default_pubkey;
  bump = 0;
}

abbrev pub zero_ledger : Ledger
zero_ledger = record {
  access_controller = default_pubkey;
  token_validator = default_pubkey;
  fundlock = default_pubkey;
  underlying_token = default_pubkey;
  strike_token = default_pubkey;
  underlying_multiplier = pos 0;
  strike_multiplier = pos 0;
  bump = 0;
}

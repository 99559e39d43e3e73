-- ===== src/Program/Errors.antt =====
-- error.rs: the program's error codes, with those that Anchor's account checks and the called
-- programs return, and the result of an instruction.
use ithaca_smart_contract_an.Base.{◌≡◌, refl, Bool, true, false, Option, none, some}

pub data AccessControlError : Type 0 where
  unauthorized_admin invalid_role last_member no_role : AccessControlError

pub data TokenValidatorError : Type 0 where
  non_fungible_token token_not_whitelisted : TokenValidatorError

pub data FundlockError : Type 0 where
  amount_zero insufficient_funds withdrawal_limit_reached invalid_index : FundlockError
  release_lock_active insufficient_funds_in_vault invalid_accounts_amount : FundlockError
  account_order_violated invalid_trade_lock release_lock_too_long : FundlockError

pub data LedgerError : Type 0 where
  empty_poistions_array invalid_contract_id account_order_violated : LedgerError
  empty_fund_movement_array empty_amounts_array : LedgerError

-- What a failed account check of Anchor reports.
pub data AnchorError : Type 0 where
  constraint_seeds constraint_raw constraint_space constraint_address : AnchorError
  constraint_token_mint constraint_token_owner invalid_program_id : AnchorError
  account_not_initialized account_already_in_use : AnchorError
  account_discriminator_mismatch account_did_not_serialize : AnchorError

pub data ProgramError : Type 0 where
  access_control : AccessControlError → ProgramError
  token_validator : TokenValidatorError → ProgramError
  fundlock : FundlockError → ProgramError
  ledger : LedgerError → ProgramError
  anchor : AnchorError → ProgramError
  called_program : ProgramError

-- An instruction returns, fails with an error, or panics: a failed `expect`, an index out of range,
-- or an overflow (Cargo.toml sets `overflow-checks`). After the last two no account is changed.
pub data Result {ℓ} (T : Type ℓ) : Type ℓ where
  panic : Result T
  err : ProgramError → Result T
  ok : T → Result T

infixl 5 ◌>>=◌ ◌>>◌
-- the `?` operator, and the end of the program at a panic
abbrev pub ◌>>=◌ {ℓ ℓ'} : {T : Type ℓ} {U : Type ℓ'} → Result T → (T → Result U) → Result U
panic >>= next = panic
err code >>= next = err code
ok value >>= next = next value

-- a check, and what comes after it
abbrev pub ◌>>◌ {ℓ} : {U : Type ℓ} → Result (Unit {0}) → Result U → Result U
check >> rest = check >>= λ u. rest

-- `require!`
abbrev pub require : Bool → ProgramError → Result (Unit {0})
require false code = err code
require true code = ok tt

-- `assert`-like run-time checks of the language: arithmetic and indexing.
abbrev pub or_panic {ℓ} : {A : Type ℓ} → Option A → Result A
or_panic none = panic
or_panic (some a) = ok a

-- `Result::expect`
abbrev pub expect {ℓ} : {A : Type ℓ} → Result A → Result A
expect (ok a) = ok a
expect (err e) = panic
expect panic = panic

-- The call of another program, which may fail.
abbrev pub or_called_program {ℓ} : {A : Type ℓ} → Option A → Result A
or_called_program none = err called_program
or_called_program (some a) = ok a

-- A successful chain has a successful head.
pub >>=-eq-ok {ℓ ℓ'} :
    {T : Type ℓ} {U : Type ℓ'} (head : Result T) (next : T → Result U) {u : U}
    → (head >>= next) ≡ ok u
    → (t : T) × (head ≡ ok t) × (next t ≡ ok u)
>>=-eq-ok panic next chain = cc
>>=-eq-ok (err code) next chain = cc
>>=-eq-ok (ok t) next chain = (t, refl, chain)

pub require-eq-ok :
    (holds : Bool) (code : ProgramError) {u : Unit {0}} → require holds code ≡ ok u → holds ≡ true
require-eq-ok false code passed = cc
require-eq-ok true code passed = refl

-- ===== src/Program/Space.antt =====
-- `impl Space for …` in state/: the bytes that an account is allocated with, and the bytes that
-- its contents take: the discriminator (8) and the fields, a text or a list behind a length (4).
use Prim.Native.String.{len}
use ithaca_smart_contract_an.Base.{ℕ, ◌+◌, ◌*◌, ◌≤◌, ◌≡◌, true, length, ap, arith}
use ithaca_smart_contract_an.Program.Roles.{
  Roles, admin, utility_account, liquidator, as_str, is_valid_role, is_valid_role-as_str,
  allowed_withdrawal_limit,
}
use ithaca_smart_contract_an.Program.State.{Role, Withdrawals}

-- `INIT_SPACE` of each account
abbrev pub access_controller_space : ℕ
access_controller_space = 8 + 32 + 1

abbrev pub role_space : ℕ
role_space = 8 + 32 + 8 + 1

abbrev pub member_space : ℕ
member_space = 8 + 32 + 1

abbrev pub token_validator_space : ℕ
token_validator_space = 8 + 32 + 1

abbrev pub whitelisted_token_space : ℕ
whitelisted_token_space = 8 + 32 + 1 + 1 + 1

abbrev pub fundlock_space : ℕ
fundlock_space = 8 + 32 + 32 + 8 + 8 + 1

abbrev pub client_balance_space : ℕ
client_balance_space = 8 + 8 + 32 + 32 + 32 + 8 + 1

abbrev pub withdrawals_space : ℕ
withdrawals_space = 8 + (4 + allowed_withdrawal_limit * 16) + 8 + 32 + 8

abbrev pub ledger_space : ℕ
ledger_space = 8 + 32 + 32 + 32 + 32 + 32 + 8 + 8 + 1

abbrev pub contract_space : ℕ
contract_space = 8 + 8 + 1

abbrev pub position_space : ℕ
position_space = 8 + 8 + 32 + 8 + 1

-- The serialized lengths. Those of the fixed-size accounts are numerals.
abbrev pub access_controller_len : ℕ
access_controller_len = 8 + 32 + 1

abbrev pub role_len : Role → ℕ
role_len r = 8 + (4 + len r.role) + 8 + 1

abbrev pub member_len : ℕ
member_len = 8 + 32 + 1

abbrev pub token_validator_len : ℕ
token_validator_len = 8 + 32 + 1

abbrev pub whitelisted_token_len : ℕ
whitelisted_token_len = 8 + 32 + 1 + 1 + 1

abbrev pub fundlock_len : ℕ
fundlock_len = 8 + 32 + 32 + 8 + 8 + 1

abbrev pub client_balance_len : ℕ
client_balance_len = 8 + 8 + 32 + 32 + 32 + 8 + 1

abbrev pub withdrawals_len : Withdrawals → ℕ
withdrawals_len w = 8 + (4 + length w.withdrawal_queue * 16) + 8 + 32 + 1

abbrev pub ledger_len : ℕ
ledger_len = 8 + 32 + 32 + 32 + 32 + 32 + 8 + 8 + 1

-- The name of a role takes at most 20 bytes.
pub len-as_str-le : (r : Roles) → len (as_str r) ≤ 20
unfolding as_str
len-as_str-le admin = omega arith
len-as_str-le utility_account = omega arith
len-as_str-le liquidator = omega arith

-- A role account that holds a valid role's name fits its space.
pub role_len-le : (r : Role) → is_valid_role r.role ≡ true → role_len r ≤ role_space
role_len-le r h =
    let x = (is_valid_role-as_str r.role).0 h in omega (arith, ap len x.1, len-as_str-le x.0)

-- The queue fits its space as long as it holds at most five withdrawals.
pub withdrawals_len-le :
    (w : Withdrawals)
    → length w.withdrawal_queue ≤ allowed_withdrawal_limit
    → withdrawals_len w ≤ withdrawals_space
withdrawals_len-le w h = omega arith

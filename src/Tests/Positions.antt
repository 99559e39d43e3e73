-- ===== src/Tests/Positions.antt =====
-- Two parameters for one position: the later one counts.
use ithaca_smart_contract_an.Base.{ℕ, ◌≡◌, ◌≢◌, List, [], ◌∷◌, some, refl, arith, inl, true}
use ithaca_smart_contract_an.Program.Errors.{ok}
use ithaca_smart_contract_an.Program.Roles.{as_str}
use ithaca_smart_contract_an.Program.State.{Pubkey, PositionsParam}
use ithaca_smart_contract_an.Program.Runtime.{text, key, u64_le}
use ithaca_smart_contract_an.Program.Checks.{
  check_access_controller, check_role_account, check_member, check_token_validator, check_mint,
  check_whitelisted_token,
}
use ithaca_smart_contract_an.Ledger.Positions
use ithaca_smart_contract_an.Ledger.Positions.{
  CreateOrUpdatePositions, CreateAccount, Store, zeros, create_or_update, create_or_update_all,
  create_if_empty, write_data, create_contracts_and_positions,
}
use ithaca_smart_contract_an.Ledger.Positions.Book.{
  size_at, create_contracts_and_positions-last_size,
}
use ithaca_smart_contract_an.Ledger.Positions.Totality.{create_contracts_and_positions-total}
use ithaca_smart_contract_an.Tests.Concrete.{digest, rt, result}
use ithaca_smart_contract_an.Tests.Movements.{updating}

abbrev writing : CreateOrUpdatePositions
writing = record {
  caller = updating.caller;
  access_controller = updating.access_controller;
  role_util = updating.role;
  member_util = updating.member;
  token_validator = updating.token_validator;
  underlying_token = updating.underlying_token;
  whitelisted_underlying_token = updating.whitelisted_underlying_token;
  strike_token = updating.strike_token;
  whitelisted_strike_token = updating.whitelisted_strike_token;
  ledger = updating.ledger;
}

abbrev creates : CreateAccount
creates payer k space store = true

abbrev earlier : PositionsParam
earlier = record { contract_id = 5; client = 40; size = 9 }

abbrev later : PositionsParam
later = record { contract_id = 5; client = 40; size = 12 }

abbrev contract_key : ℕ
contract_key = digest (text "contract" ∷ key writing.ledger.address ∷ u64_le 5 ∷ [])

abbrev position_key : ℕ
position_key = digest (text "position" ∷ key contract_key ∷ key 40 ∷ [])

abbrev remaining : List Pubkey
remaining = contract_key ∷ position_key ∷ contract_key ∷ position_key ∷ []

abbrev empty : Store
empty k = record { space = 0; contents = zeros }

abbrev written : Store
written =
    result empty
      (create_contracts_and_positions rt creates writing remaining (earlier ∷ later ∷ []) empty)

written_ok :
    create_contracts_and_positions rt creates writing remaining (earlier ∷ later ∷ []) empty
    ≡ ok written
unfolding create_contracts_and_positions Positions.try_accounts create_or_update_all
    create_or_update create_if_empty write_data as_str check_access_controller check_role_account
    check_member check_token_validator check_mint check_whitelisted_token
written_ok = refl

apart : position_key ≢ contract_key
apart e = absurd (omega (arith, e))

apart' : contract_key ≢ position_key
apart' e = absurd (omega (arith, e))

create_contracts_and_positions-last_size_example : size_at rt writing written later ≡ some 12
create_contracts_and_positions-last_size_example =
    create_contracts_and_positions-last_size rt writing creates remaining (earlier ∷ later ∷ [])
      empty written later written_ok
      (
        record { not_contract = apart; not_other = λ e. refl },
        (record { not_contract = apart; not_other = λ e. refl }, tt),
      )

writing_checked : Positions.try_accounts rt writing ≡ ok tt
unfolding Positions.try_accounts as_str check_access_controller check_role_account check_member
    check_token_validator check_mint check_whitelisted_token
writing_checked = refl

create_contracts_and_positions-total_example :
    (store : Store) × (create_contracts_and_positions rt creates writing remaining
        (earlier ∷ later ∷ [])
        empty
      ≡ ok store)
create_contracts_and_positions-total_example =
    create_contracts_and_positions-total rt creates writing remaining (earlier ∷ later ∷ []) empty
      writing_checked (λ k n store. refl) (refl, refl, (refl, refl, tt))
      ((inl refl, inl refl), ((inl refl, inl refl), tt))
      ((apart', apart'), ((apart', apart'), tt), ((apart', apart'), tt, tt))

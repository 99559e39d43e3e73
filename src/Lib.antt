-- ===== src/Lib.antt =====
-- A model of the Ithaca smart contract for Solana
-- (ithaca-smart-contract-sol/programs/ithaca-smart-contract-sol/src), and what holds of it.
--
-- The program keeps the collateral of option traders. An access controller gives accounts roles, a
-- token validator lists the tokens that are accepted, the fundlock holds the clients' tokens in one
-- vault for each token and queues their withdrawals, and a ledger, driven by a utility account,
-- writes positions and settles funds between the clients' balances. Vault tokens can be lent to
-- Kamino.
--
--   Base           numbers, tests, lists and signed integers that the other modules share
--   Program        constants.rs, error.rs and state/: Roles, Errors, State, Space (the allocated
--                  spaces); Words are the machine integers; Runtime, Checks and Tokens are what the
--                  program takes from Solana, Anchor and the token program
--   AccessControl  instructions/access_control/: Init, Grant, Renounce, Check; Sets, Members and
--                  Founding relate the accounts of a role to the set of its members
--   TokenValidator instructions/token_validator/: Init, Add, Remove
--   Fundlock       instructions/fundlock/: Init, Deposit, Withdraw, Release; History has sequences
--                  of them by many clients of one vault, Drain a client's releases one by one
--   Ledger         instructions/ledger/ and the two instructions that lib.rs writes out: Init,
--                  Positions (create_contracts_and_positions), Movements (update_fund_movements),
--                  Settle (update_balances_fundlock), Funding (fund_from_withdrawal); Movements
--                  has an update's clients and transfers, Funding the same loop as one pass over
--                  the queue, Positions the book of position sizes
--   Kamino         instructions/kamino_lend_staking/: Deposit, Redeem
--   Authority      the instructions that ask for a member of a role, against check_role
--   Openings       the accounts that are created with `init`, each once
--   Exchange       the ledger's updates among the operations of the fundlock, on one vault; Clock
--                  has the same histories with the time of each step, Lending adds the two Kamino
--                  instructions
--   Idl            dummy_for_idl of lib.rs
--   Tests          concrete inputs, on a concrete runtime and token program
--
-- For each instruction a record has the fields of its accounts context, `try_accounts` makes the
-- checks of the context's attributes, `handler` (`initialize` in AccessControl.Init) is the method
-- of the context, and a function named as in lib.rs composes the two and writes the accounts back,
-- which fails where the contents do not fit the allocated space. An instruction takes the accounts
-- before it and returns those after it, an error, or a panic; after the last two no account
-- changes. As Anchor does, `try_accounts` loads the accounts that exist, in the order of the
-- fields, then creates the accounts marked `init`, then checks the attributes of the others. A
-- panic stands for a failed `expect`, an index out of range, and an overflow: Cargo.toml sets
-- overflow-checks. Casts between u64 and i64 wrap.
--
-- Parameters. `Runtime` derives program addresses: what find_program_address returns is what
-- create_program_address returns for the same bump, and init_if_needed accepts an existing account
-- of exactly the requested space, and it names the system and the token program, whose addresses
-- the contexts of the fundlock, of Kamino and of check_role check. `TokenProgram` has the
-- documented effect of its transfers and of a new token account. Of `KaminoProgram` nothing is
-- assumed, and of the creation of an account in Positions only that it succeeds or fails, except
-- where a theorem's hypotheses say more. The time is an argument.
--
-- A public key is a number that is only compared. The loop of `fund_from_withdrawal` runs for as
-- many rounds as the queue has entries at the start, as the range in the source does, so the rounds
-- given to `fund_loop` are the loop's own bound; all other loops are recursions on their list.
-- Contents of accounts are values: serialization is represented by its lengths and, for accounts
-- that the program deserializes itself, by the kind of the contents.
--
-- Not modelled: log messages, rent, the program's own address, which accounts of a context are
-- writable, the signature of a signer, the address of the system program in the contexts of the
-- other instructions, and kamino-cpi-client, a generated interface of another program.
pub mod Base
pub mod Program
pub mod AccessControl
pub mod TokenValidator
pub mod Fundlock
pub mod Ledger
pub mod Kamino
pub mod Authority
pub mod Exchange
pub mod Openings
pub mod Idl
pub mod Tests

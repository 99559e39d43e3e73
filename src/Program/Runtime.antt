-- ===== src/Program/Runtime.antt =====
-- What the program takes from Solana and Anchor, as a parameter: the derivation of program
-- addresses, and the addresses of the system and the token program. And the account attributes of
-- `#[derive(Accounts)]` as checks on loaded accounts.
use ithaca_smart_contract_an.Base.{
  ℕ, ◌≡◌, ◌↔◌, Bool, true, false, not, Option, none, some, List, String, leb, ◌==◌, ==_iff,
  if◌then◌else◌, arith,
}
use ithaca_smart_contract_an.Program.Errors.{Result, ok, ◌>>◌, require, anchor, AnchorError}
use ithaca_smart_contract_an.Program.State.{Pubkey}

-- One seed of a program address: a text, a key, or a u64 in little-endian bytes.
pub data Seed : Type 0 where
  text : String → Seed
  key : Pubkey → Seed
  u64_le : ℕ → Seed

pub record Runtime : Type 0 where
  -- `Pubkey::find_program_address`: the address and its canonical bump
  pub find_program_address : List Seed → Pubkey × ℕ
  -- `Pubkey::create_program_address`, with the bump as the last seed
  pub create_program_address : List Seed → ℕ → Option Pubkey
  -- the addresses of the two programs that contexts name: `System` and `Token`
  pub system_program_id : Pubkey
  pub token_program_id : Pubkey
  -- does `init_if_needed` of this space accept an existing account of that size?
  pub accepts_space : ℕ → ℕ → Bool
  pub create-find :
      (seeds : List Seed)
      → create_program_address seeds (find_program_address seeds).1
        ≡ some (find_program_address seeds).0
  pub accepts_space_iff :
      (requested allocated : ℕ)
      → (accepts_space requested allocated ≡ true) ↔ (requested ≡ allocated)

-- A loaded account: its address, whether it exists as an account of the program, the bytes that it
-- is allocated with, and its contents, which mean something only if it exists.
pub record Account {ℓ} (T : Type ℓ) : Type ℓ where
  pub address : Pubkey
  pub exists : Bool
  pub space : ℕ
  pub inner : T

-- Is the optional address this one?
abbrev pub is_address : Option Pubkey → Pubkey → Bool
is_address none k = false
is_address (some j) k = j == k

pub is_address_iff : (o : Option Pubkey) (k : Pubkey) → (is_address o k ≡ true) ↔ (o ≡ some k)
is_address_iff none k = (λ h. cc, λ h. cc)
is_address_iff (some j) k = ground (arith, ==_iff j k)

module _ {ℓ} {T : Type ℓ} where
  -- `Account<'info, T>` with no `init`: the account exists
  abbrev pub loaded : Account T → Result (Unit {0})
  loaded a = require a.exists (anchor AnchorError.account_not_initialized)

  -- `close = …`: after the instruction the account no longer exists
  abbrev pub close : Account T → Account T
  close a = record a { exists = false; space = 0 }

  -- what is written back at the end of an instruction has to fit the account
  abbrev pub exit : ℕ → Account T → Result (Unit {0})
  exit bytes a = require (leb bytes a.space) (anchor AnchorError.account_did_not_serialize)

  -- an account whose contents are replaced: `set_inner`
  abbrev pub set_inner : Account T → T → Account T
  set_inner a t = record a { inner = t }

module _ (rt : Runtime) where
  -- `system_program: Program<'info, System>`, tested as it is loaded
  abbrev pub load_system_program : Pubkey → Result (Unit {0})
  load_system_program system_program =
      require (system_program == rt.system_program_id) (anchor AnchorError.invalid_program_id)

  -- that and `token_program: Program<'info, Token>`
  unfoldable pub load_programs : Pubkey → Pubkey → Result (Unit {0})
  load_programs system_program token_program =
      load_system_program system_program
      >> require (token_program == rt.token_program_id) (anchor AnchorError.invalid_program_id)

  -- `seeds = […], bump = …`
  abbrev pub seeds_bump : List Seed → ℕ → Pubkey → Result (Unit {0})
  seeds_bump seeds bump address =
      require (is_address (rt.create_program_address seeds bump) address)
        (anchor AnchorError.constraint_seeds)

  -- `seeds = […], bump`
  abbrev pub seeds_canonical : List Seed → Pubkey → Result (Unit {0})
  seeds_canonical seeds address =
      require ((rt.find_program_address seeds).0 == address) (anchor AnchorError.constraint_seeds)

  abbrev pub canonical_bump : List Seed → ℕ
  canonical_bump seeds = (rt.find_program_address seeds).1

  module _ {ℓ} {T : Type ℓ} where
    -- `init, seeds = […], space = …`
    unfoldable pub init : List Seed → ℕ → T → Account T → Result (Account T)
    init seeds space zeros a = do
      seeds_canonical seeds a.address
      require (not a.exists) (anchor AnchorError.account_already_in_use)
      ok (record a { exists = true; space = space; inner = zeros })

    -- `init_if_needed, seeds = […], space = …`
    unfoldable pub init_if_needed : List Seed → ℕ → T → Account T → Result (Account T)
    init_if_needed seeds space zeros a = do
      seeds_canonical seeds a.address
      if a.exists
          then (require (rt.accepts_space space a.space) (anchor AnchorError.constraint_space)
              >> ok a)
          else ok (record a { exists = true; space = space; inner = zeros })

-- ===== src/Program/Tokens.antt =====
-- The SPL token program, as a parameter: the amounts that its accounts hold, and the two of its
-- instructions that the program calls, each with its documented effect where it succeeds.
use ithaca_smart_contract_an.Base.{ℕ, ◌+◌, ◌≡◌, ◌≢◌, Option, some}
use ithaca_smart_contract_an.Program.State.{Pubkey}

-- `S` is the state that the token program keeps.
pub record TokenProgram {ℓ} (S : Type ℓ) : Type ℓ where
  pub amount : S → Pubkey → ℕ
  -- `transfer` from an account to an account, under an authority
  pub transfer : S → Pubkey → Pubkey → Pubkey → ℕ → Option S
  -- a new token account with its mint and its owner
  pub initialize_account : S → Pubkey → Pubkey → Pubkey → Option S
  pub transfer_from :
      (s : S) (from to authority : Pubkey) (n : ℕ) {s' : S}
      → transfer s from to authority n ≡ some s'
      → from ≢ to
      → amount s' from + n ≡ amount s from
  pub transfer_to :
      (s : S) (from to authority : Pubkey) (n : ℕ) {s' : S}
      → transfer s from to authority n ≡ some s'
      → from ≢ to
      → amount s' to ≡ amount s to + n
  pub transfer_other :
      (s : S) (from to authority : Pubkey) (n : ℕ) {s' : S} (k : Pubkey)
      → transfer s from to authority n ≡ some s'
      → k ≢ from
      → k ≢ to
      → amount s' k ≡ amount s k
  pub initialize_account_empty :
      (s : S) (k mint owner : Pubkey) {s' : S}
      → initialize_account s k mint owner ≡ some s'
      → amount s' k ≡ 0
  pub initialize_account_other :
      (s : S) (k mint owner : Pubkey) {s' : S} (j : Pubkey)
      → initialize_account s k mint owner ≡ some s'
      → j ≢ k
      → amount s' j ≡ amount s j

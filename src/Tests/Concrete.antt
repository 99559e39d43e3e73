-- ===== src/Tests/Concrete.antt =====
-- A runtime whose addresses are digests of the seeds, and a token program on a table of amounts:
-- the parameters of the model, instantiated. And the accounts that the examples share.
use Prim.Native.String.{len}
use ithaca_smart_contract_an.Base.{
  ℕ, ◌+◌, ◌-◌, ◌*◌, ◌==◌, ==_iff, leb, List, [], ◌∷◌, Option, some, none, if◌then◌else◌, true,
  false, refl, arith, pos,
}
use ithaca_smart_contract_an.Program.Errors.{Result, ok, err, panic}
use ithaca_smart_contract_an.Program.State.{
  Pubkey, AccessController, TokenValidator, WhitelistedToken, Fundlock, Mint,
}
use ithaca_smart_contract_an.Program.Runtime.{Runtime, Seed, text, key, u64_le, Account}
use ithaca_smart_contract_an.Program.Tokens.{TokenProgram}

abbrev pub digest : List Seed → ℕ
digest [] = 1
digest (text s ∷ seeds) = 3 + 11 * len s + 7 * digest seeds
digest (key k ∷ seeds) = 5 + 13 * k + 7 * digest seeds
digest (u64_le n ∷ seeds) = 6 + 17 * n + 7 * digest seeds

abbrev pub rt : Runtime
rt = record {
  find_program_address = λ seeds. (digest seeds, 255);
  create_program_address = λ seeds bump. if bump == 255 then some (digest seeds) else none;
  system_program_id = 0;
  token_program_id = 64;
  accepts_space = λ requested allocated. requested == allocated;
  create-find = λ seeds. refl;
  accepts_space_iff = λ requested allocated. ==_iff requested allocated;
}

abbrev pub Table : Type 0
Table = Pubkey → ℕ

abbrev pub moved : Table → Pubkey → Pubkey → ℕ → Table
moved s from to n k = if k == to then s to + n else if k == from then s from - n else s k

abbrev pub transfer : Table → Pubkey → Pubkey → Pubkey → ℕ → Option Table
transfer s from to authority n =
    if leb n (s from) then (if from == to then some s else some (moved s from to n)) else none

abbrev pub opened : Table → Pubkey → Table
opened s k j = if j == k then 0 else s j

abbrev pub tp : TokenProgram Table
tp = record {
  amount = λ s k. s k;
  transfer = transfer;
  initialize_account = λ s k mint owner. some (opened s k);
  transfer_from = λ s from to authority n h ne. ground (arith, ==_iff from to, ==_iff from from);
  transfer_to = λ s from to authority n h ne. ground (arith, ==_iff from to, ==_iff to to);
  transfer_other =
      λ s from to authority n k h nf nt. ground (arith, ==_iff from to, ==_iff k from, ==_iff k to);
  initialize_account_empty = λ s k mint owner h. ground (arith, ==_iff k k);
  initialize_account_other = λ s k mint owner j h ne. ground (arith, ==_iff j k);
}

-- The result of a run, or a given value if it fails.
abbrev pub result {ℓ} : {A : Type ℓ} → A → Result A → A
result d (ok a) = a
result d (err e) = d
result d panic = d

-- An account that exists.
abbrev pub account {ℓ} : {T : Type ℓ} → Pubkey → ℕ → T → Account T
account k space t = record { address = k; exists = true; space = space; inner = t }

-- One that does not.
abbrev pub missing {ℓ} : {T : Type ℓ} → Pubkey → T → Account T
missing k t = record { address = k; exists = false; space = 0; inner = t }

abbrev pub boss : Pubkey
boss = 7

abbrev pub ac_address : Pubkey
ac_address = digest (text "access_controller" ∷ key boss ∷ [])

abbrev pub controller : Account AccessController
controller = account ac_address 41 (record { admin = boss; bump = 255 })

abbrev pub tv_address : Pubkey
tv_address = digest (text "token_validator" ∷ key ac_address ∷ [])

abbrev pub validator : Account TokenValidator
validator = account tv_address 41 (record { access_controller = ac_address; bump = 255 })

abbrev pub fundlock_address : Pubkey
fundlock_address = digest (text "fundlock" ∷ key ac_address ∷ key tv_address ∷ [])

abbrev pub fundlock : Account Fundlock
fundlock = account fundlock_address 89 (record {
  access_controller = ac_address;
  token_validator = tv_address;
  trade_lock = pos 100;
  release_lock = pos 200;
  bump = 255;
})

abbrev pub usdc : Account Mint
usdc = account 21 82 (record { decimals = 6 })

abbrev pub whitelisted_address : Pubkey
whitelisted_address = digest (text "whitelisted_token" ∷ key tv_address ∷ key 21 ∷ [])

abbrev pub whitelisted_usdc : Account WhitelistedToken
whitelisted_usdc =
    account whitelisted_address 43
      (record { token_mint = 21; token_decimals = 6; token_precision = 4; bump = 255 })

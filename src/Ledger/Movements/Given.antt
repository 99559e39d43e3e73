-- ===== src/Ledger/Movements/Given.antt =====
-- The accounts that an update is given: the two loops of `update_fund_movements` in lib.rs.
use ithaca_smart_contract_an.Base.{
  ℕ, zero, suc, ◌*◌, ◌<◌, ◌≡◌, ◌≢◌, false, List, [], ◌∷◌, length, All, some, get_elem?,
}
use ithaca_smart_contract_an.Program.Errors.{ok}
use ithaca_smart_contract_an.Program.State.{Pubkey}
use ithaca_smart_contract_an.Program.Runtime.{Runtime}
use ithaca_smart_contract_an.Ledger.Settle.{client_balance, withdrawals}
use ithaca_smart_contract_an.Ledger.Movements.{RemainingAccount, contains, borrow_datas}
use ithaca_smart_contract_an.Ledger.Movements.Clients.{Client, datas}

-- The first `n` accounts are none of `borrowed`, and none of them is given twice.
abbrev AreFresh : List Pubkey → ℕ → List RemainingAccount → Type 0
AreFresh borrowed zero xs = Unit
AreFresh borrowed (suc n) [] = ⊥
AreFresh borrowed (suc n) (x ∷ xs) =
    (contains borrowed x.address ≡ false) × AreFresh (x.address ∷ borrowed) n xs

-- The four accounts of a movement belong to one client.
pub record HasOwner (c : Client) : Type 0 where
  pub strike : c.balance_s.client ≡ c.balance_u.client
  pub withdrawals_u : c.withdrawals_u.client ≡ c.balance_u.client
  pub withdrawals_s : c.withdrawals_s.client ≡ c.balance_u.client

-- The accounts begin with four for each client: its balances on the underlying and on the strike
-- token, and its withdrawals on the underlying and on the strike token.
abbrev pub AreInOrder : List RemainingAccount → List Client → Type 0
AreInOrder accounts [] = Unit
AreInOrder (ub ∷ sb ∷ uw ∷ sw ∷ rest) (c ∷ cs) =
    (ub.contents ≡ client_balance c.balance_u)
    × (sb.contents ≡ client_balance c.balance_s)
    × (uw.contents ≡ withdrawals c.withdrawals_u)
    × (sw.contents ≡ withdrawals c.withdrawals_s)
    × AreInOrder rest cs
AreInOrder _ (c ∷ cs) = ⊥

-- What `n` movements are settled on: the clients `cs`.
pub record IsGiven (accounts : List RemainingAccount) (n : ℕ) (cs : List Client) : Type 0 where
  pub in_order : AreInOrder accounts cs
  pub borrowed : borrow_datas [] n accounts ≡ ok (datas cs)
  pub count : length cs ≡ n
  pub owners : All HasOwner cs
  pub distinct :
      (i j : ℕ) (x y : RemainingAccount)
      → i < j
      → j < n * 4
      → get_elem? accounts i ≡ some x
      → get_elem? accounts j ≡ some y
      → x.address ≢ y.address

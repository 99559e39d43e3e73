-- ===== src/Ledger/Movements/Totals.antt =====
-- The claims of all clients of an update together.
use ithaca_smart_contract_an.Base.{
  ℕ, ◌+◌, ◌≡◌, ℤ, pos, ◌+ℤ◌, int_laws, pos-add, pos-add_zero, List, [], ◌∷◌, length, All,
}
use ithaca_smart_contract_an.Program.Errors.{ok}
use ithaca_smart_contract_an.Program.State.{Ledger, FundMovementParam}
use ithaca_smart_contract_an.Ledger.Settle.{MovementData}
use ithaca_smart_contract_an.Ledger.Movements.{UpdateFundMovements, handler}
use ithaca_smart_contract_an.Ledger.Movements.Clients.{
  Client, datas, Side, IsSound, claim_of, change_of, all_transfers,
}
use ithaca_smart_contract_an.Ledger.Movements.Aligned.{IsAligned}
use ithaca_smart_contract_an.Ledger.Movements.Many.{IsMoved, AllMoved, handler-AllMoved}

abbrev pub claims_of : Side → List Client → ℕ
claims_of side [] = 0
claims_of side (c ∷ cs) = claim_of side c + claims_of side cs

module _ (l : Ledger) where
  abbrev pub changes_of : Side → List FundMovementParam → ℤ
  changes_of side [] = pos 0
  changes_of side (m ∷ ms) = change_of l side m +ℤ changes_of side ms

  pub AllMoved-claims_of :
      (side : Side) (ms : List FundMovementParam) (cs cs' : List Client)
      → AllMoved side l ms cs cs'
      → pos (claims_of side cs') ≡ pos (claims_of side cs) +ℤ changes_of side ms
  AllMoved-claims_of side [] [] [] h = omega int_laws
  AllMoved-claims_of side (m ∷ ms) (c ∷ cs) (c' ∷ cs') h =
      let moved : IsMoved side l m c c' = h.0 in
      pos-add (claim_of side c) (claim_of side c') (claims_of side cs) (claims_of side cs') _ _
        moved.moved (AllMoved-claims_of side ms cs cs' h.1)
  AllMoved-claims_of side [] [] (c' ∷ cs') h = elim h [ ]
  AllMoved-claims_of side [] (c ∷ cs) cs' h = elim h [ ]
  AllMoved-claims_of side (m ∷ ms) [] cs' h = elim h [ ]
  AllMoved-claims_of side (m ∷ ms) (c ∷ cs) [] h = elim h [ ]

-- An update whose movements add up to zero on a token moves claims on it between its clients and
-- creates none: if it succeeds, with one client for each movement, whose accounts on the token have
-- balances that i64 holds and valid queues, and with transfers whose tested amounts have the signs
-- of the applied ones, the claims of all its clients together are the same afterwards.
pub handler-conserves :
    (side : Side) (self : UpdateFundMovements) (t : ℤ) (ms : List FundMovementParam)
    (cs : List Client) (r : List MovementData)
    → handler self t ms (datas cs) ≡ ok r
    → length cs ≡ length ms
    → All (IsSound side) cs
    → IsAligned (all_transfers self.ledger.inner ms)
    → changes_of self.ledger.inner side ms ≡ pos 0
    → (cs' : List Client) × (r ≡ datas cs') × (claims_of side cs' ≡ claims_of side cs)
handler-conserves side self t ms cs r h same sound aligned zero =
    let (cs', done, moved) = handler-AllMoved side self t ms cs r h same sound aligned in
    (cs', done, pos-add_zero _ _ _ (AllMoved-claims_of self.ledger.inner side ms cs cs' moved) zero)

-- ===== src/Ledger/Positions/Book.antt =====
-- The positions of a ledger as a book of sizes, and what `create_contracts_and_positions` does to
-- it.
use ithaca_smart_contract_an.Base.{
  ℕ, suc, ◌≡◌, ◌≢◌, Bool, true, ◌&&◌, Bool-cases, List, [], ◌∷◌, Option, some, none, ◌==◌, ==_iff,
  if◌then◌else◌, arith, ap, ◌∙◌, All, inl, inr, refl,
}
use ithaca_smart_contract_an.Program.Errors.{ok, >>=-eq-ok}
use ithaca_smart_contract_an.Program.State.{Pubkey, PositionsParam}
use ithaca_smart_contract_an.Program.Runtime.{Runtime}
use ithaca_smart_contract_an.Ledger.Positions.{
  CreateOrUpdatePositions, CreateAccount, Store, Contents, position, try_accounts, create_or_update,
  create_or_update_all, create_contracts_and_positions,
}
use ithaca_smart_contract_an.Ledger.Positions.Writes.{
  contract_address, position_address, create_or_update-writes,
}

-- The size of a position, where the account holds one.
abbrev pub size_of : Contents → Option ℕ
size_of (position p) = some p.size
size_of _ = none

-- The same position: the same client on the same contract.
abbrev pub is_same : PositionsParam → PositionsParam → Bool
is_same p q = p.contract_id == q.contract_id && p.client == q.client

-- The book: the size that the parameters give last, or else the one from before.
abbrev pub last_size : List PositionsParam → PositionsParam → Option ℕ → Option ℕ
last_size [] q before = before
last_size (p ∷ ps) q before = last_size ps q (if is_same p q then some p.size else before)

same_seeds :
    (p q : PositionsParam)
    → is_same p q ≡ true
    → (p.contract_id ≡ q.contract_id) × (p.client ≡ q.client)
same_seeds p q e = ground (arith, e, ==_iff p.contract_id q.contract_id, ==_iff p.client q.client)

module _ (rt : Runtime) (ctx : CreateOrUpdatePositions) where
  -- The size that the position's account holds.
  abbrev pub size_at : Store → PositionsParam → Option ℕ
  size_at store q = size_of (store (position_address rt ctx q)).contents

  -- The position's address is no contract's, and another position's only if it is the same one.
  pub record NoCollision (q p : PositionsParam) : Type 0 where
    pub not_contract : position_address rt ctx q ≢ contract_address rt ctx p
    pub not_other : position_address rt ctx q ≡ position_address rt ctx p → is_same p q ≡ true

  same_address :
      (p q : PositionsParam)
      → is_same p q ≡ true
      → position_address rt ctx q ≡ position_address rt ctx p
  same_address p q e =
      let (contract_same, client_same) = same_seeds p q e in rw (contract_same, client_same) refl

  module _ (ca : CreateAccount) (remaining_accounts : List Pubkey) where
    one-size_at :
        (i : ℕ) (p : PositionsParam) (store store' : Store) (q : PositionsParam)
        → create_or_update rt ca ctx remaining_accounts i p store ≡ ok store'
        → NoCollision q p
        → size_at store' q ≡ (if is_same p q then some p.size else size_at store q)
    one-size_at i p store store' q h n =
        let (at_c, at_k, written, made, frame) =
          create_or_update-writes rt ca ctx remaining_accounts i p store store' h in
        elim (Bool-cases (is_same p q)) [
          | inl e ↦ rw (e, same_address p q e, written) refl
          | inr e ↦
              rw
                (
                  e,
                  frame (position_address rt ctx q) n.not_contract
                      (λ z. absurd (cc (n.not_other z))),
                )
                refl
        ]

    all-size_at :
        (i : ℕ) (ps : List PositionsParam) (store store' : Store) (q : PositionsParam)
        → create_or_update_all rt ca ctx remaining_accounts i ps store ≡ ok store'
        → All (NoCollision q) ps
        → size_at store' q ≡ last_size ps q (size_at store q)
    unfolding create_or_update_all
    all-size_at i [] store store' q h n = ground (arith, h)
    all-size_at i (p ∷ ps) store store' q h n =
        let (s1, h1, k1) =
          >>=-eq-ok (create_or_update rt ca ctx remaining_accounts i p store) _ h in
        all-size_at (suc i) ps s1 store' q k1 n.1
        ∙ ap (last_size ps q) (one-size_at i p store s1 q h1 n.0)

    -- The accounts of the positions implement a book of sizes: after the instruction succeeds, a
    -- position whose address collides with no other of the parameters' addresses has the size that
    -- the last parameter for its client and contract gives, and where there is none, what it held.
    pub create_contracts_and_positions-last_size :
        (ps : List PositionsParam) (store store' : Store) (q : PositionsParam)
        → create_contracts_and_positions rt ca ctx remaining_accounts ps store ≡ ok store'
        → All (NoCollision q) ps
        → size_at store' q ≡ last_size ps q (size_at store q)
    unfolding create_contracts_and_positions
    create_contracts_and_positions-last_size ps store store' q h n =
        let (u, checked, h1) = >>=-eq-ok (try_accounts rt ctx) _ h in
        all-size_at 0 ps store store' q h1 n

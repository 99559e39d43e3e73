-- ===== src/Ledger/Positions/Writes.antt =====
-- What `create_contracts_and_positions` writes for one parameter, and for all.
use mathlib.Core.Path.{subst}
use ithaca_smart_contract_an.Base.{
  ℕ, suc, ◌+◌, ◌*◌, ◌≡◌, ◌≢◌, List, [], ◌∷◌, get_elem?, some, none, ◌==◌, ==_iff, arith, ap, sym,
  ◌∙◌, Option,
}
use ithaca_smart_contract_an.Program.Errors.{
  Result, ok, ◌>>=◌, ◌>>◌, require, or_panic, ledger, LedgerError, >>=-eq-ok, require-eq-ok,
}
use ithaca_smart_contract_an.Program.State.{Pubkey, PositionsParam}
use ithaca_smart_contract_an.Program.Space.{contract_space, position_space}
use ithaca_smart_contract_an.Program.Runtime.{Runtime}
use ithaca_smart_contract_an.Ledger.Positions.{
  CreateOrUpdatePositions, CreateAccount, Store, Contents, contract, position, contract_seeds,
  position_seeds, contract_len, position_len, create_if_empty, write_data, create_or_update,
  create_or_update_all, borrow_other,
}

-- Neither the creation of an account nor a write to it touches another account.
create_if_empty-frame :
    (ca : CreateAccount) (caller k : Pubkey) (n : ℕ) (store store' : Store) (j : Pubkey)
    → create_if_empty ca caller k n store ≡ ok store'
    → j ≢ k
    → store' j ≡ store j
unfolding create_if_empty
create_if_empty-frame ca caller k n store store' j h other = ground (arith, ==_iff k j)

write_data-frame :
    (k : Pubkey) (n : ℕ) (c : Contents) (store store' : Store) (j : Pubkey)
    → write_data k n c store ≡ ok store'
    → j ≢ k
    → store' j ≡ store j
unfolding write_data
write_data-frame k n c store store' j h other = ground (arith, ==_iff k j)

borrow_other-differ : (c k : Pubkey) {u : Unit {0}} → borrow_other c k ≡ ok u → c ≢ k
borrow_other-differ c k h = ground (arith, ==_iff c k)

write_data-contents :
    (k : Pubkey) (n : ℕ) (c : Contents) (store store' : Store)
    → write_data k n c store ≡ ok store'
    → (store' k).contents ≡ c
unfolding write_data
write_data-contents k n c store store' h = ground (arith, ==_iff k k)

module _ (rt : Runtime) (ctx : CreateOrUpdatePositions) where
  abbrev pub contract_address : PositionsParam → Pubkey
  contract_address p = (rt.find_program_address (contract_seeds ctx.ledger.address p)).0

  abbrev pub position_address : PositionsParam → Pubkey
  position_address p = (rt.find_program_address (position_seeds (contract_address p) p)).0

  abbrev pub contract_of : PositionsParam → Contents
  contract_of p = contract (record {
    contract_id = p.contract_id;
    bump = (rt.find_program_address (contract_seeds ctx.ledger.address p)).1;
  })

  abbrev pub position_of : Pubkey → PositionsParam → Contents
  position_of contract_key p = position (record {
    contract_id = p.contract_id;
    client = p.client;
    size = p.size;
    bump = (rt.find_program_address (position_seeds contract_key p)).1;
  })

module _ (rt : Runtime) (ca : CreateAccount) (ctx : CreateOrUpdatePositions)
    (remaining_accounts : List Pubkey) where
  -- The four writes of the body.
  abbrev writes : Pubkey → Pubkey → PositionsParam → Store → Result Store
  writes c k p store = do
    s1 ← create_if_empty ca ctx.caller c contract_space store
    s2 ← write_data c contract_len (contract_of rt ctx p) s1
    borrow_other c k
    s3 ← create_if_empty ca ctx.caller k position_space s2
    write_data k position_len (position_of rt ctx c p) s3

  or_panic-eq-ok {ℓ} : {A : Type ℓ} (o : Option A) {a : A} → or_panic o ≡ ok a → o ≡ some a
  or_panic-eq-ok none h = cc
  or_panic-eq-ok (some a) h = ground (arith, h)

  keys :
      (i : ℕ) (p : PositionsParam) (store store' : Store)
      → create_or_update rt ca ctx remaining_accounts i p store ≡ ok store'
      → (get_elem? remaining_accounts (i * 2) ≡ some (contract_address rt ctx p))
        × (get_elem? remaining_accounts (i * 2 + 1) ≡ some (position_address rt ctx p))
        × (writes (contract_address rt ctx p) (position_address rt ctx p) p store ≡ ok store')
  unfolding create_or_update
  keys i p store store' h =
      let (c, hc, h1) = >>=-eq-ok (or_panic (get_elem? remaining_accounts (i * 2))) _ h in
      let (k, hk, h2) = >>=-eq-ok (or_panic (get_elem? remaining_accounts (i * 2 + 1))) _ h1 in
      let (u, rc, h3) =
        >>=-eq-ok
          (require (c == contract_address rt ctx p) (ledger LedgerError.account_order_violated)) _
          h2 in
      let (v, rk, h4) =
        >>=-eq-ok
          (require (k == (rt.find_program_address (position_seeds c p)).0)
            (ledger LedgerError.account_order_violated))
          _ h3 in
      let ec = (==_iff c (contract_address rt ctx p)).0 (require-eq-ok _ _ rc) in
      let ek =
        (==_iff k ((rt.find_program_address (position_seeds c p)).0)).0 (require-eq-ok _ _ rk)
        ∙ ap (λ x. (rt.find_program_address (position_seeds x p)).0) ec in
      (
        or_panic-eq-ok _ hc ∙ ap some ec,
        or_panic-eq-ok _ hk ∙ ap some ek,
        subst (λ x. writes x (position_address rt ctx p) p store ≡ ok store') ec
            (subst (λ x. writes c x p store ≡ ok store') ek h4),
      )

  -- A parameter that is processed has its two accounts at its places of the remaining accounts, at
  -- the addresses that are derived for its contract and its position. The position's account holds
  -- the position with the given size, the contract's account, a different one, the contract, and no
  -- other account is touched.
  pub create_or_update-writes :
      (i : ℕ) (p : PositionsParam) (store store' : Store)
      → create_or_update rt ca ctx remaining_accounts i p store ≡ ok store'
      → (get_elem? remaining_accounts (i * 2) ≡ some (contract_address rt ctx p))
        × (get_elem? remaining_accounts (i * 2 + 1) ≡ some (position_address rt ctx p))
        × ((store' (position_address rt ctx p)).contents
            ≡ position_of rt ctx (contract_address rt ctx p) p)
        × ((store' (contract_address rt ctx p)).contents ≡ contract_of rt ctx p)
        × ((j : Pubkey)
            → j ≢ contract_address rt ctx p
            → j ≢ position_address rt ctx p
            → store' j ≡ store j)
  create_or_update-writes i p store store' h =
      let (at_contract, at_position, written) = keys i p store store' h in
      let c = contract_address rt ctx p in
      let k = position_address rt ctx p in
      let (s1, h1, k1) =
        >>=-eq-ok (create_if_empty ca ctx.caller c contract_space store) _ written in
      let (s2, h2, k2) = >>=-eq-ok (write_data c contract_len (contract_of rt ctx p) s1) _ k1 in
      let (u, other, k3) = >>=-eq-ok (borrow_other c k) _ k2 in
      let differ = borrow_other-differ c k other in
      let (s3, h3, h4) = >>=-eq-ok (create_if_empty ca ctx.caller k position_space s2) _ k3 in
      (
        at_contract,
        at_position,
        write_data-contents k position_len (position_of rt ctx c p) s3 store' h4,
        ap (λ x. x.contents)
              (write_data-frame k position_len (position_of rt ctx c p) s3 store' c h4 differ
                ∙ create_if_empty-frame ca ctx.caller k position_space s2 s3 c h3 differ)
            ∙ write_data-contents c contract_len (contract_of rt ctx p) s1 s2 h2,
        λ j not_c not_k.
            write_data-frame k position_len (position_of rt ctx c p) s3 store' j h4 not_k
            ∙ create_if_empty-frame ca ctx.caller k position_space s2 s3 j h3 not_k
            ∙ write_data-frame c contract_len (contract_of rt ctx p) s1 s2 j h2 not_c
            ∙ create_if_empty-frame ca ctx.caller c contract_space store s1 j h1 not_c,
      )

  -- The whole instruction touches only accounts of the list of remaining accounts.
  pub create_or_update_all-frame :
      (i : ℕ) (ps : List PositionsParam) (store store' : Store) (j : Pubkey)
      → create_or_update_all rt ca ctx remaining_accounts i ps store ≡ ok store'
      → ((n : ℕ) → ¬ (get_elem? remaining_accounts n ≡ some j))
      → store' j ≡ store j
  unfolding create_or_update_all
  create_or_update_all-frame i [] store store' j h away = ground (arith, h)
  create_or_update_all-frame i (p ∷ ps) store store' j h away =
      let (s1, h1, k1) = >>=-eq-ok (create_or_update rt ca ctx remaining_accounts i p store) _ h in
      let w = create_or_update-writes i p store s1 h1 in
      create_or_update_all-frame (suc i) ps s1 store' j k1 away
      ∙ w.4 j (λ e. away (i * 2) (w.0 ∙ ap some (sym e)))
          (λ e. away (i * 2 + 1) (w.1 ∙ ap some (sym e)))

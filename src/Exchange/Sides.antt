-- ===== src/Exchange/Sides.antt =====
-- One token of an update of fund movements, and the accounts of the fundlock that it settles.
use mathlib.Core.List.{Permᴰ}
use mathlib.Core.List.Permᴰ.{nil, cons, swap, trans}
use ithaca_smart_contract_an.Base.{
  ◌+◌, ◌≡◌, true, List, [], ◌∷◌, ◌++◌, length, All, ℤ, pos_part, neg_part, pos-add_parts, arith,
  refl, ap, sym, ◌∙◌,
}
use ithaca_smart_contract_an.Program.Errors.{ok, >>=-eq-ok}
use ithaca_smart_contract_an.Program.State.{
  ClientBalance, Withdrawals, Ledger, FundMovementParam, FundMovementParamOptimized,
}
use ithaca_smart_contract_an.Program.Runtime.{Runtime, set_inner}
use ithaca_smart_contract_an.Fundlock.Accounts.{FundlockAccounts, claim}
use ithaca_smart_contract_an.Fundlock.History.{claims}
use ithaca_smart_contract_an.Ledger.Settle.{MovementData}
use ithaca_smart_contract_an.Ledger.Movements.{
  UpdateFundMovements, RemainingAccount, handler, borrow_datas, resolve_clients, try_accounts,
  update_fund_movements,
}
use ithaca_smart_contract_an.Ledger.Movements.Both.{length-borrow_datas, resolve_clients-HasBoth}
use ithaca_smart_contract_an.Ledger.Movements.Clients.{Client, Side, balance_of, withdrawals_of}
use ithaca_smart_contract_an.Ledger.Movements.Totals.{claims_of, changes_of, AllMoved-claims_of}
use ithaca_smart_contract_an.Ledger.Movements.Many.{AllMoved}

-- The accounts of the clients on the vault's token are the ones that the movements were given.
abbrev pub Hold : Side → List FundlockAccounts → List Client → Type 0
Hold side [] [] = Unit
Hold side (a ∷ as') (c ∷ cs) =
    (a.client_balance.exists ≡ true)
    × (a.withdrawals.exists ≡ true)
    × (a.client_balance.inner ≡ balance_of side c)
    × (a.withdrawals.inner ≡ withdrawals_of side c)
    × Hold side as' cs
Hold side _ _ = ⊥

-- The accounts once the settled balances and withdrawals are written back.
abbrev pub put : Side → FundlockAccounts → Client → FundlockAccounts
put side a c = record a {
  client_balance = set_inner a.client_balance (balance_of side c);
  withdrawals = set_inner a.withdrawals (withdrawals_of side c);
}

abbrev pub puts : Side → List FundlockAccounts → List Client → List FundlockAccounts
puts side (a ∷ as') (c ∷ cs) = put side a c ∷ puts side as' cs
puts side as' _ = as'

pub claims-Hold :
    (side : Side) (as' : List FundlockAccounts) (cs : List Client)
    → Hold side as' cs
    → claims as' ≡ claims_of side cs
claims-Hold side [] [] h = refl
claims-Hold side (a ∷ as') (c ∷ cs) h = ground (arith, claims-Hold side as' cs h.4)
claims-Hold side [] (c ∷ cs) h = elim h [ ]
claims-Hold side (a ∷ as') [] h = elim h [ ]

pub puts-Hold :
    (side : Side) (as' : List FundlockAccounts) (cs cs' : List Client)
    → Hold side as' cs
    → length cs' ≡ length cs
    → Hold side (puts side as' cs') cs'
puts-Hold side [] [] [] h e = tt
puts-Hold side (a ∷ as') (c ∷ cs) (c' ∷ cs') h e =
    (h.0, h.1, refl, refl, puts-Hold side as' cs cs' h.4 (omega (arith, e)))
puts-Hold side [] [] (c' ∷ cs') h e = absurd (omega (arith, e))
puts-Hold side (a ∷ as') (c ∷ cs) [] h e = absurd (omega (arith, e))
puts-Hold side [] (c ∷ cs) cs' h e = elim h [ ]
puts-Hold side (a ∷ as') [] cs' h e = elim h [ ]

pub claims_append : (xs ys : List FundlockAccounts) → claims (xs ++ ys) ≡ claims xs + claims ys
claims_append [] ys = omega arith
claims_append (x ∷ xs) ys = omega (arith, claims_append xs ys)

-- The order of the clients does not matter.
pub claims-perm : (xs ys : List FundlockAccounts) → Permᴰ xs ys → claims xs ≡ claims ys
claims-perm xs ys nil = refl
claims-perm (x ∷ xs) (y ∷ ys) (cons e p) = omega (arith, ap claim e, claims-perm xs ys p)
claims-perm (x ∷ y ∷ xs) (y' ∷ x' ∷ ys) (swap e f) = omega (arith, ap claim e, ap claim f)
claims-perm xs ys (trans {l₂ = zs} p q) = claims-perm xs zs p ∙ claims-perm zs ys q

-- The handler of an update of fund movements runs on the accounts that the instruction borrowed
-- and the movements that it resolved.
pub update-handler :
    (rt : Runtime) (ctx : UpdateFundMovements) (t : ℤ) (accounts : List RemainingAccount)
    (ps : List FundMovementParamOptimized) (ms : List FundMovementParam) (ds r : List MovementData)
    → update_fund_movements rt ctx t accounts ps ≡ ok r
    → borrow_datas [] (length ps) accounts ≡ ok ds
    → resolve_clients ds ps ≡ ok ms
    → (handler ctx t ms ds ≡ ok r) × (length ds ≡ length ms)
unfolding update_fund_movements
update-handler rt ctx t accounts ps ms ds r h borrowed resolved =
    let (u, checked, h1) = >>=-eq-ok (try_accounts rt ctx) _ h in
    let len = length-borrow_datas [] (length ps) accounts ds borrowed in
    let (same, lift) = resolve_clients-HasBoth ds ps ms resolved len in
    (rw (borrowed, resolved) at h1, len ∙ sym same)

pub claims-puts :
    (side : Side) (as' : List FundlockAccounts) (cs cs' : List Client)
    → Hold side as' cs
    → length cs' ≡ length cs
    → claims (puts side as' cs') ≡ claims_of side cs'
claims-puts side as' cs cs' h e =
    claims-Hold side (puts side as' cs') cs' (puts-Hold side as' cs cs' h e)

-- What the write back keeps, it keeps for every client.
pub All-puts {ℓ} :
    (P : FundlockAccounts → Type ℓ) (side : Side) (as' : List FundlockAccounts) (cs : List Client)
    (rest : List FundlockAccounts)
    → ((a : FundlockAccounts) (b : ClientBalance) (w : Withdrawals)
        → P a
        → P (record a {
          client_balance = set_inner a.client_balance b;
          withdrawals = set_inner a.withdrawals w;
        }))
    → All P (as' ++ rest)
    → All P (puts side as' cs ++ rest)
All-puts P side [] cs rest keep h = h
All-puts P side (a ∷ as') [] rest keep h = h
All-puts P side (a ∷ as') (c ∷ cs) rest keep h =
    (keep a (balance_of side c) (withdrawals_of side c) h.0, All-puts P side as' cs rest keep h.1)

pub AllMoved-claims_parts :
    (side : Side) (l : Ledger) (ms : List FundMovementParam) (cs cs' : List Client)
    → AllMoved side l ms cs cs'
    → claims_of side cs' + neg_part (changes_of l side ms)
      ≡ claims_of side cs + pos_part (changes_of l side ms)
AllMoved-claims_parts side l ms cs cs' moved =
    pos-add_parts _ _ _ (AllMoved-claims_of l side ms cs cs' moved)

pub AllMoved-length :
    (side : Side) (l : Ledger) (ms : List FundMovementParam) (cs cs' : List Client)
    → AllMoved side l ms cs cs'
    → length cs' ≡ length cs
AllMoved-length side l [] [] [] h = refl
AllMoved-length side l (m ∷ ms) (c ∷ cs) (c' ∷ cs') h =
    omega (arith, AllMoved-length side l ms cs cs' h.1)
AllMoved-length side l [] [] (c' ∷ cs') h = elim h [ ]
AllMoved-length side l [] (c ∷ cs) cs' h = elim h [ ]
AllMoved-length side l (m ∷ ms) [] cs' h = elim h [ ]
AllMoved-length side l (m ∷ ms) (c ∷ cs) [] h = elim h [ ]

-- ===== src/Exchange/History.antt =====
-- Updates of fund movements among the deposits, withdrawals and releases of one vault's clients.
use mathlib.Core.Path.{subst}
use mathlib.Core.List.{Permᴰ}
use ithaca_smart_contract_an.Base.{
  ◌≡◌, ◌<◌, List, [], ◌++◌, length, All, All-perm, ℤ, pos_part, neg_part, arith, sym, ◌∙◌,
}
use ithaca_smart_contract_an.Program.Errors.{ok}
use ithaca_smart_contract_an.Program.Words.{i64_mod}
use ithaca_smart_contract_an.Program.State.{Pubkey, FundMovementParam, FundMovementParamOptimized}
use ithaca_smart_contract_an.Program.Runtime.{Runtime}
use ithaca_smart_contract_an.Program.Tokens.{TokenProgram}
use ithaca_smart_contract_an.Fundlock.Accounts.{FundlockAccounts}
use ithaca_smart_contract_an.Fundlock.History
use ithaca_smart_contract_an.Fundlock.History.{
  World, IsSolvent, IsClient, IsBalanced, IsBalanced-IsSolvent, claims,
}
use ithaca_smart_contract_an.Ledger.Movements.{
  UpdateFundMovements, RemainingAccount, borrow_datas, resolve_clients, update_fund_movements,
}
use ithaca_smart_contract_an.Ledger.Movements.Clients.{
  Client, datas, datas-eq, length-datas, Side, all_transfers,
}
use ithaca_smart_contract_an.Ledger.Movements.Aligned.{IsAligned}
use ithaca_smart_contract_an.Ledger.Movements.Many.{AllMoved, handler-AllMoved}
use ithaca_smart_contract_an.Ledger.Movements.Totals.{changes_of}
use ithaca_smart_contract_an.Fundlock.Invariant.{IsValid}
use ithaca_smart_contract_an.Exchange.Queues.{
  AllMoved-HasQueue, Hold-IsSound, puts-IsValid, fundlock-IsValid,
}
use ithaca_smart_contract_an.Exchange.Sides.{
  Hold, puts, claims-Hold, claims_append, claims-perm, update-handler, claims-puts, All-puts,
  AllMoved-claims_parts, AllMoved-length,
}

module _ {ℓ} {S : Type ℓ} (tp : TokenProgram S) (rt : Runtime) (vault : Pubkey) where
  -- An update that settles `cs`, whose accounts on the vault's token are `chosen`, where
  -- i64 holds the claims of all clients together.
  pub record Settles (side : Side) (w w' : World S) : Type ℓ where
    pub ctx : UpdateFundMovements
    pub t : ℤ
    pub accounts : List RemainingAccount
    pub params : List FundMovementParamOptimized
    pub movements : List FundMovementParam
    pub chosen : List FundlockAccounts
    pub rest : List FundlockAccounts
    pub cs : List Client
    pub cs' : List Client
    pub members : Permᴰ w.clients (chosen ++ rest)
    pub held : Hold side chosen cs
    pub borrowed : borrow_datas [] (length params) accounts ≡ ok (datas cs)
    pub resolved : resolve_clients (datas cs) params ≡ ok movements
    pub run : update_fund_movements rt ctx t accounts params ≡ ok (datas cs')
    pub aligned : IsAligned (all_transfers ctx.ledger.inner movements)
    pub small : claims w.clients < i64_mod
    pub written : w'.clients ≡ puts side chosen cs' ++ rest
    pub same_tokens : w'.tokens ≡ w.tokens

  -- What the movements add to all claims together.
  abbrev pub change_by : {side : Side} {w w' : World S} → Settles side w w' → ℤ
  change_by {side} u = changes_of u.ctx.ledger.inner side u.movements

  -- An operation of the fundlock, or an update that adds nothing to the claims.
  pub data Step (w w' : World S) : Type ℓ where
    fundlock : History.Step tp rt vault w w' → Step w w'
    settles : (side : Side) (u : Settles side w w') → pos_part (change_by u) ≡ 0 → Step w w'

  pub data Reach (w : World S) : World S → Type ℓ where
    here : Reach w w
    next : {u v : World S} → Reach w u → Step u v → Reach w v

  -- The vault covers the claims, and the queues of its clients are valid.
  pub record IsOrderly (w : World S) : Type 0 where
    pub solvent : IsSolvent tp rt vault w
    pub valid : All IsValid w.clients

  -- The accounts that an update settles are sound, and it moves them.
  pub Settles-AllMoved :
      {side : Side} {w w' : World S} (u : Settles side w w')
      → All IsValid w.clients
      → AllMoved side u.ctx.ledger.inner u.movements u.cs u.cs'
  Settles-AllMoved {side} {w} u v =
      let (handled, same) =
        update-handler rt u.ctx u.t u.accounts u.params u.movements (datas u.cs) (datas u.cs') u.run
          u.borrowed u.resolved in
      let chosen_small : claims u.chosen < i64_mod = omega (
        arith,
        u.small,
        claims-perm w.clients (u.chosen ++ u.rest) u.members,
        claims_append u.chosen u.rest,
      ) in
      let sound =
        Hold-IsSound side u.chosen u.cs u.rest u.held chosen_small
          (All-perm IsValid w.clients (u.chosen ++ u.rest) u.members v) in
      let (cs'', e, moved) =
        handler-AllMoved side u.ctx u.t u.movements u.cs (datas u.cs') handled
          (sym (length-datas u.cs) ∙ same) sound u.aligned in
      subst (AllMoved side u.ctx.ledger.inner u.movements u.cs) (sym (datas-eq u.cs' cs'' e)) moved

  pub Settles-IsBalanced :
      {side : Side} {w w' : World S} (u : Settles side w w')
      → AllMoved side u.ctx.ledger.inner u.movements u.cs u.cs'
      → All (IsClient tp rt vault) w.clients
      → IsBalanced tp rt vault w w' (pos_part (change_by u)) (neg_part (change_by u))
  Settles-IsBalanced {side} {w} {w'} u moved members =
      let l = u.ctx.ledger.inner in
      record {
        members = rw u.written (
            All-puts (IsClient tp rt vault) side u.chosen u.cs' u.rest (λ a b w h. h)
              (All-perm (IsClient tp rt vault) w.clients (u.chosen ++ u.rest) u.members members));
        balanced =
            rw (u.written, u.same_tokens)
              (omega (
                arith,
                claims-perm w.clients (u.chosen ++ u.rest) u.members,
                claims_append u.chosen u.rest,
                claims_append (puts side u.chosen u.cs') u.rest,
                claims-Hold side u.chosen u.cs u.held,
                claims-puts side u.chosen u.cs u.cs' u.held
                    (AllMoved-length side l u.movements u.cs u.cs' moved),
                AllMoved-claims_parts side l u.movements u.cs u.cs' moved,
              ));
      }

  pub Settles-IsValid :
      {side : Side} {w w' : World S} (u : Settles side w w')
      → AllMoved side u.ctx.ledger.inner u.movements u.cs u.cs'
      → All IsValid w.clients
      → All IsValid w'.clients
  Settles-IsValid {side} {w} u moved v = rw u.written (
      puts-IsValid side u.chosen u.cs' u.rest
        (AllMoved-HasQueue side u.ctx.ledger.inner u.movements u.cs u.cs' moved)
        (All-perm IsValid w.clients (u.chosen ++ u.rest) u.members v))

  pub Step-IsOrderly : {w w' : World S} → Step w w' → IsOrderly w → IsOrderly w'
  Step-IsOrderly (fundlock st) s = record {
    solvent = History.Step-IsSolvent tp rt vault st s.solvent;
    valid = fundlock-IsValid tp rt vault st s.valid;
  }
  Step-IsOrderly {w} {w'} (settles side u none) s =
      let moved = Settles-AllMoved u s.valid in
      record {
        solvent = IsBalanced-IsSolvent tp rt vault s.solvent (
            subst (λ n. IsBalanced tp rt vault w w' n (neg_part (change_by u))) none
              (Settles-IsBalanced u moved s.solvent.members));
        valid = Settles-IsValid u moved s.valid;
      }

  -- From a vault that covers the claims of its clients, and whose clients have valid queues, every
  -- history of their deposits, withdrawals and releases, of transactions outside the program that
  -- take nothing out of the vault, and of updates of fund movements that do not raise the sum of
  -- the claims, each with transfers whose tested amounts have the signs of the applied ones and
  -- while all claims together are below 2^63, leads to a vault that covers the claims, with clients
  -- whose queues are valid: the entries of each add up to its active amount, there are at most
  -- five, and none is empty.
  pub settled_history-IsOrderly : {w w' : World S} → Reach w w' → IsOrderly w → IsOrderly w'
  settled_history-IsOrderly here s = s
  settled_history-IsOrderly (next r st) s = Step-IsOrderly st (settled_history-IsOrderly r s)

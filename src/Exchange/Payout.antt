-- ===== src/Exchange/Payout.antt =====
-- The payout of a client's queued withdrawals from a vault with other clients.
use ithaca_smart_contract_an.Base.{
  ◌+◌, ◌≤◌, ◌≡◌, List, [], ◌∷◌, ◌++◌, ℤ, length, All, All-at, arith, true, ap, refl, ◌∙◌, sym,
}
use ithaca_smart_contract_an.Program.Errors.{ok}
use ithaca_smart_contract_an.Program.State.{Pubkey}
use ithaca_smart_contract_an.Program.Space.{withdrawals_len}
use ithaca_smart_contract_an.Program.Runtime.{Runtime}
use ithaca_smart_contract_an.Program.Tokens.{TokenProgram}
use ithaca_smart_contract_an.Fundlock.Accounts.{FundlockAccounts, queue_total}
use ithaca_smart_contract_an.Fundlock.Release
use ithaca_smart_contract_an.Fundlock.Invariant.{IsValid}
use ithaca_smart_contract_an.Fundlock.History.{World, IsSolvent, client_at, claims-append, claims}
use ithaca_smart_contract_an.Exchange.History.{Reach, IsOrderly, settled_history-IsOrderly}
use ithaca_smart_contract_an.Fundlock.Drain.{drain, IsUnlocked, Pays, drain-Pays}

module _ {ℓ} {S : Type ℓ} (tp : TokenProgram S) (rt : Runtime) (vault : Pubkey) where
  -- Nobody waits for ever: after any history of a solvent vault whose clients' queues were valid,
  -- of its clients' operations and of updates of fund movements that do not raise the sum of the
  -- claims, with transfers whose tested amounts have the signs of the applied ones and while all
  -- claims together are below 2^63, a client whose release locks have all run out, at times that
  -- i64 holds, and whose accounts pass their checks and have the space, is paid in full. Where the
  -- token program moves what the vault holds, releasing the first entry as often as there are
  -- entries succeeds each time, empties the queue, brings the active amount to zero, leaves the
  -- balance, and puts the whole active amount into the client's own account.
  pub payout_in_full :
      {w0 w : World S} (t : ℤ) (xs : List FundlockAccounts) (a : FundlockAccounts)
      (ys : List FundlockAccounts)
      → Reach tp rt vault w0 w
      → IsOrderly tp rt vault w0
      → w.clients ≡ xs ++ a ∷ ys
      → a.withdrawals.exists ≡ true
      → Release.try_accounts rt a ≡ ok tt
      → All (IsUnlocked t a) a.withdrawals.inner.withdrawal_queue
      → withdrawals_len a.withdrawals.inner ≤ a.withdrawals.space
      → Pays tp a
      → (a' : FundlockAccounts) × (s' : S) × (drain tp rt t
            (length a.withdrawals.inner.withdrawal_queue)
            a
            w.tokens
          ≡ ok (a', s'))
        × (a'.withdrawals.inner.withdrawal_queue ≡ [])
        × (a'.withdrawals.inner.active_withdrawals_amount ≡ 0)
        × (a'.client_balance ≡ a.client_balance)
        × (tp.amount s' a.client_ata.address
            ≡ tp.amount w.tokens a.client_ata.address
              + a.withdrawals.inner.active_withdrawals_amount)
  payout_in_full {w0} {w} t xs a ys history start there queue checked locks fits pays =
      let o : IsOrderly tp rt vault w = settled_history-IsOrderly tp rt vault history start in
      let s : IsSolvent tp rt vault w = o.solvent in
      let c = client_at tp rt vault w xs a ys s.members there in
      let kept : All IsValid (xs ++ a ∷ ys) = rw there at (o.valid) in
      let q = All-at IsValid xs a ys kept queue in
      let covered : queue_total a.withdrawals.inner.withdrawal_queue ≤ tp.amount w.tokens vault =
        ground (arith, s.covered, claims-append xs a ys, ap claims there, q.total) in
      let (a', s', run, empty, none_active, balance, got) =
        drain-Pays tp rt t a.withdrawals.inner.withdrawal_queue a w.tokens refl checked locks
          q.total fits (rw c.0 covered) (λ e. c.2 (sym e ∙ c.0)) pays in
      (a', s', run, empty, none_active, balance, omega (arith, got, q.total))

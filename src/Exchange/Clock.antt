-- ===== src/Exchange/Clock.antt =====
-- The times of the queued withdrawals, in histories whose clock does not run backwards.
use ithaca_smart_contract_an.Base.{
  ℕ, ◌≤◌, ◌≡◌, List, [], ◌∷◌, ◌++◌, All, All-replace, All-perm, All-at, ℤ, ◌+ℤ◌, ◌≤ℤ◌, ◌<ℤ◌, some,
  get_elem?, Bool-cases, inl, inr, int_laws,
}
use ithaca_smart_contract_an.Program.Errors.{ok}
use ithaca_smart_contract_an.Program.State.{Pubkey, Ledger, FundMovementParam, WithdrawalState}
use ithaca_smart_contract_an.Program.Runtime.{Runtime}
use ithaca_smart_contract_an.Program.Tokens.{TokenProgram}
use ithaca_smart_contract_an.Fundlock.Accounts.{FundlockAccounts}
use ithaca_smart_contract_an.Fundlock.Deposits.{Deposited, deposit_fundlock-Deposited}
use ithaca_smart_contract_an.Fundlock.Release.{release_fundlock}
use ithaca_smart_contract_an.Fundlock.Effects.{
  withdraw_fundlock-Withdrawn, release_fundlock-Released,
}
use ithaca_smart_contract_an.Fundlock.History.{World, deposits, withdraws, releases, outside}
use ithaca_smart_contract_an.Ledger.Funding.Thinned.{Thinned-erase_idx}
use ithaca_smart_contract_an.Ledger.Movements.Clients.{Client, Side}
use ithaca_smart_contract_an.Ledger.Movements.Many.{AllMoved, IsMoved}
use ithaca_smart_contract_an.Exchange.Sides.{Hold, puts}
use ithaca_smart_contract_an.Exchange.Times.{
  TimelyClient, IsTimely-later, IsTimely-append, IsTimely-Thinned, earlier,
}
use ithaca_smart_contract_an.Exchange.History.{
  Step, fundlock, settles, Settles-AllMoved, IsOrderly, Step-IsOrderly,
}

-- A client's accounts once the queue on the vault's token was settled.
moved-TimelyClient :
    (now : ℤ) (side : Side) (l : Ledger) (ms : List FundMovementParam) (as' : List FundlockAccounts)
    (cs cs' : List Client) (rest : List FundlockAccounts)
    → Hold side as' cs
    → AllMoved side l ms cs cs'
    → All (TimelyClient now) (as' ++ rest)
    → All (TimelyClient now) (puts side as' cs' ++ rest)
moved-TimelyClient now side l [] [] [] [] rest h moved old = old
moved-TimelyClient now side l (m ∷ ms) (a ∷ as') (c ∷ cs) (c' ∷ cs') rest h moved old =
    let one : IsMoved side l m c c' = moved.0 in
    (
      λ e. IsTimely-Thinned now one.thinned.thinned (rw h.3 at (old.0 h.1)),
      moved-TimelyClient now side l ms as' cs cs' rest h.4 moved.1 old.1,
    )
moved-TimelyClient now side l ms [] (c ∷ cs) cs' rest h moved old = elim h [ ]
moved-TimelyClient now side l ms (a ∷ as') [] cs' rest h moved old = elim h [ ]
moved-TimelyClient now side l [] [] [] (c' ∷ cs') rest h moved old = elim moved [ ]
moved-TimelyClient now side l (m ∷ ms) [] [] cs' rest h moved old = elim moved [ ]
moved-TimelyClient now side l [] (a ∷ as') (c ∷ cs) cs' rest h moved old = elim moved [ ]
moved-TimelyClient now side l (m ∷ ms) (a ∷ as') (c ∷ cs) [] rest h moved old = elim moved [ ]

All-later :
    (t t' : ℤ) (as' : List FundlockAccounts)
    → t ≤ℤ t'
    → All (TimelyClient t) as'
    → All (TimelyClient t') as'
All-later t t' [] le h = tt
All-later t t' (a ∷ as') le h = (λ e. IsTimely-later t t' _ le (h.0 e), All-later t t' as' le h.1)

module _ {ℓ} {S : Type ℓ} (tp : TokenProgram S) (rt : Runtime) (vault : Pubkey) where
  -- A step whose instruction reads the clock at `t`.
  abbrev pub ReadsClock : ℤ → {w w' : World S} → Step tp rt vault w w' → Type 0
  ReadsClock t (fundlock (withdraws xs a a' ys t' n e h e' same)) = t' ≡ t
  ReadsClock t (fundlock (releases xs a a' ys t' i e h e')) = t' ≡ t
  ReadsClock t (settles side u none) = u.t ≡ t
  ReadsClock t _ = Unit

  -- The worlds that are reached, with the time of each.
  pub data At (t0 : ℤ) (w0 : World S) : ℤ → World S → Type ℓ where
    start : At t0 w0 t0 w0
    passes : {t t' : ℤ} {w : World S} → At t0 w0 t w → t ≤ℤ t' → At t0 w0 t' w
    steps :
        {t : ℤ} {w w' : World S}
        → At t0 w0 t w
        → (st : Step tp rt vault w w') → ReadsClock t st
        → At t0 w0 t w'

  Deposited-TimelyClient :
      (now : ℤ) (a a' : FundlockAccounts) (s s1 s' : S) (n : ℕ)
      → Deposited tp n a a' s s1 s'
      → TimelyClient now a
      → TimelyClient now a'
  Deposited-TimelyClient now a a' s s1 s' n d h e = elim (Bool-cases a.withdrawals.exists) [
    | inl there ↦ rw (d.queue, there) (h there)
    | inr missing ↦ rw (d.queue, missing) (record { in_order = tt; past = tt })
  ]

  Step-TimelyClient :
      {w w' : World S} (t : ℤ) (st : Step tp rt vault w w')
      → ReadsClock t st
      → IsOrderly tp rt vault w
      → All (TimelyClient t) w.clients
      → All (TimelyClient t) w'.clients
  Step-TimelyClient t (fundlock (deposits xs a a' ys n e h e')) at s m = rw e' (
      All-replace (TimelyClient t) xs a a' ys (rw e at m)
        (Deposited-TimelyClient t a a' _ _ _ n (deposit_fundlock-Deposited tp rt a a' _ _ n h).1))
  Step-TimelyClient t (fundlock (withdraws xs a a' ys t' n e h e' same)) at s m =
      let d = withdraw_fundlock-Withdrawn rt a a' t' n h in
      rw e' (
        All-replace (TimelyClient t) xs a a' ys (rw e at m)
          (λ old there. rw (d.queue, at) (IsTimely-append t _ n (old d.has_queue))))
  Step-TimelyClient t (fundlock (releases xs a a' ys t' i e h e')) at s m =
      let d = (release_fundlock-Released tp rt a a' _ _ t' i h).1 in
      rw e' (
        All-replace (TimelyClient t) xs a a' ys (rw e at m)
          (λ old there. rw d.queue (IsTimely-Thinned t (Thinned-erase_idx _ i) (old d.has_queue))))
  Step-TimelyClient t (fundlock (outside e up)) at s m = rw e m
  Step-TimelyClient {w} t (settles side u none) at s m = rw u.written (
      moved-TimelyClient t side u.ctx.ledger.inner u.movements u.chosen u.cs u.cs' u.rest u.held
        (Settles-AllMoved tp rt vault u s.valid)
        (All-perm (TimelyClient t) w.clients (u.chosen ++ u.rest) u.members m))

  -- What holds at a time of the vault and of its queues.
  pub record IsClocked (t : ℤ) (w : World S) : Type 0 where
    pub orderly : IsOrderly tp rt vault w
    pub timely : All (TimelyClient t) w.clients

  -- The queues stay in the order of their times, with no entry from the future: from a vault that
  -- covers the claims, with valid queues of this kind, over every history of its clients'
  -- operations, of transactions outside the program that take nothing out of it, and of updates of
  -- fund movements that do not raise the sum of the claims, with transfers whose tested amounts
  -- have the signs of the applied ones and while all claims together are below 2^63, if the clock
  -- that the instructions read does not run backwards.
  pub timed_history-IsClocked :
      {t0 : ℤ} {w0 : World S} {t : ℤ} {w : World S} → At t0 w0 t w → IsClocked t0 w0 → IsClocked t w
  timed_history-IsClocked start c = c
  timed_history-IsClocked (passes {t = t} {t' = t'} {w = w} r le) c =
      let before = timed_history-IsClocked r c in
      record { orderly = before.orderly; timely = All-later t t' w.clients le before.timely }
  timed_history-IsClocked (steps {t = t} r st clock) c =
      let before = timed_history-IsClocked r c in
      record {
        orderly = Step-IsOrderly tp rt vault st before.orderly;
        timely = Step-TimelyClient t st clock before.orderly before.timely;
      }

  -- First in, first out: from a vault that covers the claims, with valid queues that stand in the
  -- order of their times and have no entry from the future, after any history of its clients'
  -- operations, of transactions outside the program that take nothing out of it, and of updates of
  -- fund movements that do not raise the sum of the claims, with transfers whose tested amounts
  -- have the signs of the applied ones and while all claims together are below 2^63, if the clock
  -- that the instructions read does not run backwards, then whenever the release of a client's
  -- entry succeeds, the release lock of every entry in front of it has run out too.
  pub release_in_order :
      {t0 : ℤ} {w0 : World S} {t : ℤ} {w : World S} (xs : List FundlockAccounts)
      (a a' : FundlockAccounts) (ys : List FundlockAccounts) (s' : S) (i j : ℕ)
      (v : WithdrawalState)
      → At t0 w0 t w
      → IsClocked t0 w0
      → w.clients ≡ xs ++ a ∷ ys
      → release_fundlock tp rt a w.tokens t j ≡ ok (a', s')
      → i ≤ j
      → get_elem? a.withdrawals.inner.withdrawal_queue i ≡ some v
      → v.timestamp +ℤ a.fundlock.inner.release_lock <ℤ t
  release_in_order {t = t} {w = w} xs a a' ys s' i j v r c there run le e =
      let k = timed_history-IsClocked r c in
      let (x, d) = release_fundlock-Released tp rt a a' w.tokens s' t j run in
      let timely : TimelyClient t a = All-at (TimelyClient t) xs a ys (rw there at (k.timely)) in
      let first =
        earlier a.withdrawals.inner.withdrawal_queue i j v x (timely d.has_queue).in_order le e
          d.entry in
      omega (int_laws, first, d.unlocked)

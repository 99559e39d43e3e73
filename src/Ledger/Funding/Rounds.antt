-- ===== src/Ledger/Funding/Rounds.antt =====
-- One round of the loop of `fund_from_withdrawal`, and of the pass over the queue.
use mathlib.Core.List.{append_assoc}
use ithaca_smart_contract_an.Base.{
  ℕ, zero, suc, ◌+◌, ◌-◌, ◌≤◌, ◌<◌, ◌≡◌, ℤ, ltb_ℤ, Bool, true, false, List, [], ◌∷◌, ◌++◌, none,
  length, get_elem?, get_elem?-append, erase_idx, ◌==◌, if◌then◌else◌, le→leb, Bool-cases, ◌⊎◌, inl,
  inr, arith, refl, ap, sym,
}
use ithaca_smart_contract_an.Program.Errors.{Result, ok, err, panic, ◌>>=◌}
use ithaca_smart_contract_an.Program.Words.{add_u64, sub_u64, add_i64, IsU64}
use ithaca_smart_contract_an.Program.State.{WithdrawalState}
use ithaca_smart_contract_an.Ledger.Funding.{
  Funding, set_amount, take_withdrawal, fund_round, fund_loop,
}
use ithaca_smart_contract_an.Ledger.Funding.Reference.{funding, behind, fund_entries}

module _ (trade_lock unix_timestamp : ℤ) (amount : ℕ) where
  erase_idx-append :
      (before : List WithdrawalState) (w : WithdrawalState) (q : List WithdrawalState)
      → erase_idx (before ++ w ∷ q) (length before) ≡ before ++ q
  erase_idx-append [] w q = refl
  erase_idx-append (x ∷ before) w q = ap (◌∷◌ x) (erase_idx-append before w q)

  set_amount-append :
      (before : List WithdrawalState) (w : WithdrawalState) (q : List WithdrawalState) (n : ℕ)
      → set_amount (before ++ w ∷ q) (length before) n ≡ before ++ record w { amount = n } ∷ q
  set_amount-append [] w q n = refl
  set_amount-append (x ∷ before) w q n = ap (◌∷◌ x) (set_amount-append before w q n)

  pub behind_one :
      (before : List WithdrawalState) (w : WithdrawalState) (r : Result (Bool × Funding))
      → ((r >>= behind (w ∷ [])) >>= behind before) ≡ (r >>= behind (before ++ w ∷ []))
  behind_one before w (ok (b, st)) =
      ap (λ z. ok (b, record st { queue = z })) (sym (append_assoc before (w ∷ []) st.queue))
  behind_one before w (err e) = refl
  behind_one before w panic = refl

  get_elem?-past : (q : List WithdrawalState) (i : ℕ) → length q ≤ i → get_elem? q i ≡ none
  get_elem?-past [] i h = refl
  get_elem?-past (x ∷ q) zero h = absurd (omega (arith, h))
  get_elem?-past (x ∷ q) (suc i) h = get_elem?-past q i (omega (arith, h))

  le_or_lt : (a b : ℕ) → (a ≤ b) ⊎ (b < a)
  le_or_lt a b = ground arith

  -- Past the end nothing happens.
  fund_round-past :
      (i : ℕ) (st : Funding)
      → length st.queue ≤ i
      → fund_round trade_lock unix_timestamp amount i st ≡ ok (false, st)
  unfolding fund_round
  fund_round-past i st h = rw (fund_round, get_elem?-past st.queue i h) refl

  pub fund_loop-past :
      (rounds i : ℕ) (st : Funding)
      → length st.queue ≤ i
      → fund_loop trade_lock unix_timestamp amount rounds i st ≡ ok (false, st)
  unfolding fund_loop
  fund_loop-past zero i st h = refl
  fund_loop-past (suc rounds) i st h =
      rw (fund_loop, fund_round-past i st h) (fund_loop-past rounds (i + 1) st (omega (arith, h)))

  module _ (before : List WithdrawalState) (w : WithdrawalState) (q : List WithdrawalState)
      (active funded : ℕ) (u : IsU64 amount) (le : funded ≤ amount) where
    abbrev st : Funding
    st = funding (before ++ w ∷ q) active funded

    abbrev round : Result (Bool × Funding)
    round = fund_round trade_lock unix_timestamp amount (length before) st

    round-kept :
        (t : ℤ)
        → add_i64 w.timestamp trade_lock ≡ ok t
        → ltb_ℤ unix_timestamp t ≡ false
        → round ≡ ok (false, st)
    unfolding fund_round
    round-kept t e l = rw (fund_round, get_elem?-append before w q, e, l) refl

    round-whole :
        (t : ℤ)
        → add_i64 w.timestamp trade_lock ≡ ok t
        → ltb_ℤ unix_timestamp t ≡ true
        → funded + w.amount ≤ amount
        → round ≡ (
            sub_u64 active w.amount >>= λ rest.
            ok (funded + w.amount == amount, funding (before ++ q) rest (funded + w.amount)))
    unfolding fund_round take_withdrawal add_u64 sub_u64
    round-whole t e l fits =
        rw (fund_round, get_elem?-append before w q, e, l)
          (ground (arith, erase_idx-append before w q))

    round-part :
        (t : ℤ)
        → add_i64 w.timestamp trade_lock ≡ ok t
        → ltb_ℤ unix_timestamp t ≡ true
        → amount < funded + w.amount
        → round ≡ (
            sub_u64 active (amount - funded) >>= λ rest. ok (
              true,
              funding
                  (before ++ record w { amount = w.amount - (amount - funded) } ∷ q)
                  rest
                  amount,
            ))
    unfolding fund_round take_withdrawal add_u64 sub_u64
    round-part t e l short =
        rw (fund_round, get_elem?-append before w q, e, l)
          (ground (arith, set_amount-append before w q (w.amount - (amount - funded))))

    -- The same round of the pass.
    abbrev entries : Result (Bool × Funding)
    entries = fund_entries trade_lock unix_timestamp amount false (w ∷ q) active funded

    entries-kept :
        (t : ℤ)
        → add_i64 w.timestamp trade_lock ≡ ok t
        → ltb_ℤ unix_timestamp t ≡ false
        → entries ≡ (
            fund_entries trade_lock unix_timestamp amount false q active funded >>= behind (w ∷ []))
    unfolding fund_entries
    entries-kept t e l = rw (fund_entries, e, l) refl

    entries-whole :
        (t : ℤ)
        → add_i64 w.timestamp trade_lock ≡ ok t
        → ltb_ℤ unix_timestamp t ≡ true
        → funded + w.amount ≤ amount
        → entries ≡ (
            sub_u64 active w.amount >>= λ rest.
            if funded + w.amount == amount
            then ok (true, funding q rest (funded + w.amount))
            else fund_entries trade_lock unix_timestamp amount true q rest (funded + w.amount))
    unfolding fund_entries
    entries-whole t e l fits =
        rw (fund_entries, e, l, le→leb w.amount (amount - funded) (omega (arith, fits))) refl

    entries-part :
        (t : ℤ)
        → add_i64 w.timestamp trade_lock ≡ ok t
        → ltb_ℤ unix_timestamp t ≡ true
        → amount < funded + w.amount
        → entries ≡ (
            sub_u64 active (amount - funded) >>= λ rest.
            ok (true, funding (record w { amount = w.amount - (amount - funded) } ∷ q) rest amount))
    unfolding fund_entries
    entries-part t e l short = rw (fund_entries, e, l) (ground arith)

    module _ (rounds : ℕ)
        (kept : fund_loop trade_lock unix_timestamp amount rounds (length before + 1) st ≡ (
          (fund_entries trade_lock unix_timestamp amount false q active funded >>= behind (w ∷ []))
          >>= behind before))
        (taken : (rest : ℕ)
          → funded + w.amount ≤ amount
          → fund_loop trade_lock unix_timestamp amount rounds
              (length before + 1)
              (funding (before ++ q) rest (funded + w.amount))
            ≡ (fund_entries trade_lock unix_timestamp amount true q rest (funded + w.amount)
                >>= behind before)) where
      abbrev after : Bool × Funding → Result (Bool × Funding)
      after r = elim r.0 [
        | true ↦ ok (true, r.1)
        | false ↦ fund_loop trade_lock unix_timestamp amount rounds (length before + 1) r.1
      ]

      whole_then :
          (full : Bool) (x : Result ℕ)
          → funded + w.amount ≤ amount
          → ((x >>= λ rest. ok (full, funding (before ++ q) rest (funded + w.amount))) >>= after)
            ≡ ((x >>= λ rest.
                  if full
                  then ok (true, funding q rest (funded + w.amount))
                  else fund_entries trade_lock unix_timestamp amount true q rest
                      (funded + w.amount))
                >>= behind before)
      whole_then true (ok rest) fits = refl
      whole_then false (ok rest) fits = taken rest fits
      whole_then full (err e) fits = refl
      whole_then full panic fits = refl

      part_then :
          (x : Result ℕ) (w' : WithdrawalState)
          → ((x >>= λ rest. ok (true, funding (before ++ w' ∷ q) rest amount)) >>= after)
            ≡ ((x >>= λ rest. ok (true, funding (w' ∷ q) rest amount)) >>= behind before)
      part_then (ok rest) w' = refl
      part_then (err e) w' = refl
      part_then panic w' = refl

      within_lock :
          (t : ℤ)
          → add_i64 w.timestamp trade_lock ≡ ok t
          → ltb_ℤ unix_timestamp t ≡ true
          → (round >>= after) ≡ (entries >>= behind before)
      within_lock t e l = elim (le_or_lt (funded + w.amount) amount) [
        | inl fits ↦
            rw (round-whole t e l fits, entries-whole t e l fits)
              (whole_then (funded + w.amount == amount) (sub_u64 active w.amount) fits)
        | inr short ↦
            rw (round-part t e l short, entries-part t e l short)
              (part_then (sub_u64 active (amount - funded)) _)
      ]

      pub one_round :
          (t : Result ℤ)
          → add_i64 w.timestamp trade_lock ≡ t
          → (round >>= after) ≡ (entries >>= behind before)
      unfolding fund_round fund_entries
      one_round (ok t) e = elim (Bool-cases (ltb_ℤ unix_timestamp t)) [
        | inl l ↦ within_lock t e l
        | inr l ↦ rw (round-kept t e l, entries-kept t e l) kept
      ]
      one_round (err x) e = rw (fund_round, fund_entries, get_elem?-append before w q, e) refl
      one_round panic e = rw (fund_round, fund_entries, get_elem?-append before w q, e) refl

-- ===== src/Ledger/Positions/Totality.antt =====
-- When `create_contracts_and_positions` goes through.
use ithaca_smart_contract_an.Base.{
  ℕ, suc, ◌+◌, ◌*◌, ◌≤◌, ◌≡◌, ◌≢◌, ◌⊎◌, true, Bool-cases, List, [], ◌∷◌, some, get_elem?, ◌==◌,
  ==_iff, arith, sym, All, inl, inr, refl,
}
use ithaca_smart_contract_an.Program.Errors.{ok}
use ithaca_smart_contract_an.Program.State.{Pubkey, PositionsParam}
use ithaca_smart_contract_an.Program.Space.{contract_space, position_space}
use ithaca_smart_contract_an.Program.Runtime.{Runtime}
use ithaca_smart_contract_an.Ledger.Positions.{
  CreateOrUpdatePositions, CreateAccount, Store, update, Contents, zeros, contract_len,
  position_len, create_if_empty, write_data, borrow_other, try_accounts, create_or_update,
  create_or_update_all, create_contracts_and_positions,
}
use ithaca_smart_contract_an.Ledger.Positions.Writes.{
  contract_address, position_address, contract_of, position_of,
}

-- An account that was never created, or that has the space.
abbrev pub HasRoom : Store → Pubkey → ℕ → Type 0
HasRoom store k n = ((store k).space ≡ 0) ⊎ (n ≤ (store k).space)

-- The system program creates every account that it is asked for.
abbrev pub Creates : CreateAccount → Pubkey → Type 0
Creates ca caller = (k : Pubkey) (n : ℕ) (store : Store) → ca caller k n store ≡ true

-- The accounts keep their room, as far as they differ from `k` or ask for no more than `n`.
abbrev KeepsRoom : Store → Store → Pubkey → ℕ → Type 0
KeepsRoom store store' k n =
    (j : Pubkey) (m : ℕ) → ((j ≡ k) → m ≤ n) → HasRoom store j m → HasRoom store' j m

create_if_empty-ok :
    (ca : CreateAccount) (caller k : Pubkey) (n : ℕ) (store : Store)
    → Creates ca caller
    → HasRoom store k n
    → (s1 : Store) × (create_if_empty ca caller k n store ≡ ok s1)
      × (n ≤ (s1 k).space)
      × KeepsRoom store s1 k n
unfolding create_if_empty
create_if_empty-ok ca caller k n store creates room = elim (Bool-cases ((store k).space == 0)) [
  | inl e ↦ (
    update store k (record { space = n; contents = zeros }),
    rw (e, creates k n store) refl,
    ground (arith, ==_iff k k),
    λ j m small r. ground (arith, small, r, ==_iff k j),
  )
  | inr e ↦ (store, rw e refl, ground (arith, room, ==_iff ((store k).space) 0), λ j m small r. r)
]

write_data-ok :
    (k : Pubkey) (n : ℕ) (c : Contents) (store : Store)
    → n ≤ (store k).space
    → (s1 : Store) × (write_data k n c store ≡ ok s1)
      × ((j : Pubkey) → (s1 j).space ≡ (store j).space)
unfolding write_data
write_data-ok k n c store room = (
  update store k (record (store k) { contents = c }),
  ground (arith, room),
  λ j. ground (arith, ==_iff k j),
)

module _ (rt : Runtime) (ca : CreateAccount) (ctx : CreateOrUpdatePositions)
    (remaining_accounts : List Pubkey) where
  -- The accounts of the parameters from index `i` on, in order.
  abbrev pub Listed : ℕ → List PositionsParam → Type 0
  Listed i [] = Unit
  Listed i (p ∷ ps) =
      (get_elem? remaining_accounts (i * 2) ≡ some (contract_address rt ctx p))
      × (get_elem? remaining_accounts (i * 2 + 1) ≡ some (position_address rt ctx p))
      × Listed (suc i) ps

  -- Room for the accounts of a parameter.
  abbrev pub HasBothRoom : Store → PositionsParam → Type 0
  HasBothRoom store p =
      HasRoom store (contract_address rt ctx p) contract_len
      × HasRoom store (position_address rt ctx p) position_len

  -- The contract of the one is not the position of the other.
  abbrev pub AreApart : PositionsParam → PositionsParam → Type 0
  AreApart p q =
      (contract_address rt ctx p ≢ position_address rt ctx q)
      × (contract_address rt ctx q ≢ position_address rt ctx p)

  -- No contract of the parameters is a position of theirs.
  abbrev pub AllApart : List PositionsParam → Type 0
  AllApart [] = Unit
  AllApart (p ∷ ps) = AreApart p p × All (AreApart p) ps × AllApart ps

  keep_room :
      (store store' : Store) (p : PositionsParam) (ps : List PositionsParam)
      → ((q : PositionsParam) → AreApart p q → HasBothRoom store q → HasBothRoom store' q)
      → All (AreApart p) ps
      → All (HasBothRoom store) ps
      → All (HasBothRoom store') ps
  keep_room store store' p [] keep apart room = tt
  keep_room store store' p (q ∷ qs) keep apart room =
      (keep q apart.0 room.0, keep_room store store' p qs keep apart.1 room.1)

  create_or_update-ok :
      (i : ℕ) (p : PositionsParam) (store : Store)
      → Creates ca ctx.caller
      → get_elem? remaining_accounts (i * 2) ≡ some (contract_address rt ctx p)
      → get_elem? remaining_accounts (i * 2 + 1) ≡ some (position_address rt ctx p)
      → HasBothRoom store p
      → AreApart p p
      → (store' : Store) × (create_or_update rt ca ctx remaining_accounts i p store ≡ ok store')
        × ((q : PositionsParam) → AreApart p q → HasBothRoom store q → HasBothRoom store' q)
  unfolding create_or_update borrow_other
  create_or_update-ok i p store creates at_c at_k room apart =
      let c = contract_address rt ctx p in
      let k = position_address rt ctx p in
      let (s1, h1, room1, keeps1) =
        create_if_empty-ok ca ctx.caller c contract_space store creates room.0 in
      let (s2, h2, same2) = write_data-ok c contract_len (contract_of rt ctx p) s1 room1 in
      let room2 : HasRoom s2 k position_len =
        ground (arith, same2 k, keeps1 k position_len (λ e. absurd (apart.0 (sym e))) room.1) in
      let (s3, h3, room3, keeps3) =
        create_if_empty-ok ca ctx.caller k position_space s2 creates room2 in
      let (s4, h4, same4) = write_data-ok k position_len (position_of rt ctx c p) s3 room3 in
      let through : (j : Pubkey) (m : ℕ)
          → ((j ≡ c) → m ≤ contract_space)
          → ((j ≡ k) → m ≤ position_space)
          → HasRoom store j m
          → HasRoom s4 j m =
        λ j m at_c at_k r. rw (same4 j) (keeps3 j m at_k (rw (same2 j) (keeps1 j m at_c r))) in
      (
        s4,
        ground (arith, at_c, at_k, apart.0, ==_iff c k, ==_iff c c, ==_iff k k, h1, h2, h3, h4),
        λ q away room_q. (
          through (contract_address rt ctx q) contract_len (λ e. omega arith)
              (λ e. absurd (away.1 e)) room_q.0,
          through (position_address rt ctx q) position_len (λ e. absurd (away.0 (sym e)))
              (λ e. omega arith) room_q.1,
        ),
      )

  loop-ok :
      (i : ℕ) (ps : List PositionsParam) (store : Store)
      → Creates ca ctx.caller
      → Listed i ps
      → All (HasBothRoom store) ps
      → AllApart ps
      → (store' : Store) × (create_or_update_all rt ca ctx remaining_accounts i ps store
          ≡ ok store')
  unfolding create_or_update_all
  loop-ok i [] store creates listed room apart = (store, refl)
  loop-ok i (p ∷ ps) store creates listed room apart =
      let (s1, h1, keeps) =
        create_or_update-ok i p store creates listed.0 listed.1 room.0 apart.0 in
      let (s2, h2) =
        loop-ok (suc i) ps s1 creates listed.2 (keep_room store s1 p ps keeps apart.1 room.1)
          apart.2 in
      (s2, rw (h1, h2) refl)

  -- The instruction goes through: where the context passes its checks, the remaining accounts are
  -- those of the parameters, in order, each of them never created or with the space that it needs,
  -- no contract of the parameters is a position of theirs, and the system program creates every
  -- account that it is asked for, it returns.
  pub create_contracts_and_positions-total :
      (ps : List PositionsParam) (store : Store)
      → try_accounts rt ctx ≡ ok tt
      → Creates ca ctx.caller
      → Listed 0 ps
      → All (HasBothRoom store) ps
      → AllApart ps
      → (store' : Store) × (create_contracts_and_positions rt ca ctx remaining_accounts ps store
          ≡ ok store')
  unfolding create_contracts_and_positions
  create_contracts_and_positions-total ps store checked creates listed room apart =
      let (s1, h1) = loop-ok 0 ps store creates listed room apart in (s1, rw (checked, h1) refl)

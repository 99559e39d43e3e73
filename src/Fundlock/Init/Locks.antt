-- ===== src/Fundlock/Init/Locks.antt =====
-- The locks that `init_fundlock` accepts.
use ithaca_smart_contract_an.Base.{ℕ, ◌≡◌, ◌↔◌, ℤ, pos, is_zero, false, ◌<ℤ◌, arith}
use ithaca_smart_contract_an.Program.Errors.{ok}
use ithaca_smart_contract_an.Program.Runtime.{set_inner}
use ithaca_smart_contract_an.Fundlock.Init.{InitFundlock, handler}

-- The accounts with the fundlock that is written.
abbrev pub locked : InitFundlock → ℤ → ℤ → ℕ → InitFundlock
locked self trade_lock release_lock bump = record self {
  fundlock = set_inner self.fundlock (record {
    access_controller = self.access_controller.address;
    token_validator = self.token_validator.address;
    trade_lock = trade_lock;
    release_lock = release_lock;
    bump = bump;
  });
}

-- A fundlock is written with the two locks exactly when the trade lock is not zero and the release
-- lock is below a week (604800 seconds); a negative lock is accepted.
pub init_fundlock_iff :
    (self : InitFundlock) (trade_lock release_lock : ℤ) (bump : ℕ)
    → (handler self trade_lock release_lock bump ≡ ok (locked self trade_lock release_lock bump))
      ↔ ((is_zero trade_lock ≡ false) × (release_lock <ℤ pos 604800))
unfolding handler
init_fundlock_iff self trade_lock release_lock bump = (λ h. ground arith, λ h. ground arith)

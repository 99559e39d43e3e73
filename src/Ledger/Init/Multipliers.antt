-- ===== src/Ledger/Init/Multipliers.antt =====
-- The multipliers that `init_ledger` writes, and the tokens that it accepts.
use ithaca_smart_contract_an.Base.{ℕ, ◌-◌, ◌^◌, ◌≤◌, ◌<◌, ◌≡◌, pos, true, str_eq, arith, ◌↔◌}
use ithaca_smart_contract_an.Program.Errors.{ok}
use ithaca_smart_contract_an.Program.Words.{sub_u64, pow10_i64, checked_i64, i64_mod}
use ithaca_smart_contract_an.Program.Roles.{admin, as_str}
use ithaca_smart_contract_an.Program.Runtime.{set_inner}
use ithaca_smart_contract_an.Ledger.Init.{InitLedger, handler}

-- What a ledger asks of a token: its precision is at most its decimals, and the power of ten of the
-- difference is an i64.
abbrev pub Fits : ℕ → ℕ → Type 0
Fits decimals precision = (precision ≤ decimals) × (10 ^ (decimals - precision) < i64_mod)

-- A ledger that is opened has for each token the multiplier ten to the number of decimals beyond
-- the token's precision, and both tokens fit.
pub init_ledger-multipliers :
    (self self' : InitLedger) (bump : ℕ)
    → handler self bump ≡ ok self'
    → Fits self.underlying_token.inner.decimals
        self.whitelisted_underlying_token.inner.token_precision
      × Fits self.strike_token.inner.decimals self.whitelisted_strike_token.inner.token_precision
      × (self'.ledger.inner.underlying_multiplier
          ≡ pos (
              10
              ^ (self.underlying_token.inner.decimals
                  - self.whitelisted_underlying_token.inner.token_precision)))
      × (self'.ledger.inner.strike_multiplier
          ≡ pos (
              10
              ^ (self.strike_token.inner.decimals
                  - self.whitelisted_strike_token.inner.token_precision)))
unfolding handler sub_u64 pow10_i64 checked_i64
init_ledger-multipliers self self' bump h = ground arith

-- The accounts with the ledger that is written.
abbrev pub opened : InitLedger → ℕ → InitLedger
opened self bump = record self {
  ledger = set_inner self.ledger (record {
    access_controller = self.access_controller.address;
    token_validator = self.token_validator.address;
    fundlock = self.fundlock.address;
    underlying_token = self.underlying_token.address;
    strike_token = self.strike_token.address;
    underlying_multiplier = pos (
        10
        ^ (self.underlying_token.inner.decimals
            - self.whitelisted_underlying_token.inner.token_precision));
    strike_multiplier = pos (
        10
        ^ (self.strike_token.inner.decimals - self.whitelisted_strike_token.inner.token_precision));
    bump = bump;
  });
}

-- Under a role account of the admin role the instruction writes the ledger whenever both tokens
-- fit.
pub init_ledger-succeeds :
    (self : InitLedger) (bump : ℕ)
    → str_eq self.role.inner.role (as_str admin) ≡ true
    → Fits self.underlying_token.inner.decimals
        self.whitelisted_underlying_token.inner.token_precision
    → Fits self.strike_token.inner.decimals self.whitelisted_strike_token.inner.token_precision
    → handler self bump ≡ ok (opened self bump)
unfolding handler sub_u64 pow10_i64 checked_i64
init_ledger-succeeds self bump named u s = ground arith

ledger-opened :
    (self self' : InitLedger) (bump : ℕ)
    → handler self bump ≡ ok self'
    → (str_eq self.role.inner.role (as_str admin) ≡ true) × (self' ≡ opened self bump)
unfolding handler sub_u64 pow10_i64 checked_i64
ledger-opened self self' bump h = ground arith

-- A ledger is opened exactly when the role account is of the admin role and both tokens fit: their
-- precision is at most their decimals, and ten to the difference is an i64. It then holds the
-- addresses of its accounts and for each token the multiplier ten to the number of decimals beyond
-- the token's precision.
pub init_ledger_iff :
    (self self' : InitLedger) (bump : ℕ)
    → (handler self bump ≡ ok self') ↔ (
        (str_eq self.role.inner.role (as_str admin) ≡ true)
        × Fits self.underlying_token.inner.decimals
            self.whitelisted_underlying_token.inner.token_precision
        × Fits self.strike_token.inner.decimals self.whitelisted_strike_token.inner.token_precision
        × (self' ≡ opened self bump))
init_ledger_iff self self' bump = (
  λ h.
      let fits = init_ledger-multipliers self self' bump h in
      let done = ledger-opened self self' bump h in (done.0, fits.0, fits.1, done.1),
  λ h. rw h.3 (init_ledger-succeeds self bump h.0 h.1 h.2),
)

-- ===== src/Program/Roles.antt =====
-- constants.rs: the roles, their names, and the limits.
use text.Mathlib.TextEquality.{eq_iff}
use ithaca_smart_contract_an.Base.{
  ℕ, ◌≡◌, ◌↔◌, refl, Bool, true, ◌||◌, Option, none, some, String, str_eq, if◌then◌else◌, arith,
  inl, inr, Option-cases,
}

abbrev pub allowed_withdrawal_limit : ℕ
allowed_withdrawal_limit = 5

pub data Roles : Type 0 where
  admin utility_account liquidator : Roles

unfoldable pub as_str : Roles → String
as_str admin = "DEFAULT_ADMIN_ROLE"
as_str utility_account = "UTILITY_ACCOUNT_ROLE"
as_str liquidator = "LIQUIDATOR_ROLE"

unfoldable pub from_str : String → Option Roles
from_str role =
    if str_eq role "DEFAULT_ADMIN_ROLE"
    then some admin
    else if str_eq role "UTILITY_ACCOUNT_ROLE"
    then some utility_account
    else if str_eq role "LIQUIDATOR_ROLE"
    then some liquidator
    else none

unfoldable pub is_valid_role : String → Bool
is_valid_role role =
    str_eq role "DEFAULT_ADMIN_ROLE"
    || str_eq role "UTILITY_ACCOUNT_ROLE"
    || str_eq role "LIQUIDATOR_ROLE"

pub from_str-as_str : (r : Roles) → from_str (as_str r) ≡ some r
unfolding from_str as_str
from_str-as_str admin = refl
from_str-as_str utility_account = refl
from_str-as_str liquidator = refl

as_str_of_from_str : (s : String) (r : Roles) → from_str s ≡ some r → s ≡ as_str r
unfolding from_str as_str
as_str_of_from_str s admin h = ground (
  arith,
  eq_iff s "DEFAULT_ADMIN_ROLE",
  eq_iff s "UTILITY_ACCOUNT_ROLE",
  eq_iff s "LIQUIDATOR_ROLE",
)
as_str_of_from_str s _ h = ground (
  arith,
  eq_iff s "DEFAULT_ADMIN_ROLE",
  eq_iff s "UTILITY_ACCOUNT_ROLE",
  eq_iff s "LIQUIDATOR_ROLE",
)

-- `from_str` and `as_str` are inverse to each other: every role is read back from its name, and
-- a text that is read as a role is that role's name.
pub from_str_iff : (s : String) (r : Roles) → (from_str s ≡ some r) ↔ (s ≡ as_str r)
from_str_iff s r = (as_str_of_from_str s r, λ e. rw e (from_str-as_str r))

valid_of_from_str : (s : String) (r : Roles) → from_str s ≡ some r → is_valid_role s ≡ true
unfolding is_valid_role from_str
valid_of_from_str s r h = ground arith

none_invalid : (s : String) → from_str s ≡ none → is_valid_role s ≡ true → ⊥
unfolding is_valid_role from_str
none_invalid s e h = ground arith

from_str_of_valid : (s : String) → is_valid_role s ≡ true → (r : Roles) × (from_str s ≡ some r)
from_str_of_valid s h = elim (Option-cases (from_str s)) [
  | inl e ↦ absurd (none_invalid s e h)
  | inr found ↦ found
]

-- A text is a valid role exactly when `from_str` reads it as one.
pub is_valid_role_iff :
    (s : String) → (is_valid_role s ≡ true) ↔ ((r : Roles) × (from_str s ≡ some r))
is_valid_role_iff s = (from_str_of_valid s, λ x. valid_of_from_str s x.0 x.1)

-- `is_valid_role` accepts the names of the three roles, and nothing else.
pub is_valid_role-as_str : (s : String) → (is_valid_role s ≡ true) ↔ ((r : Roles) × (s ≡ as_str r))
is_valid_role-as_str s = (
  λ h. let x = from_str_of_valid s h in (x.0, as_str_of_from_str s x.0 x.1),
  λ x. valid_of_from_str s x.0 ((from_str_iff s x.0).1 x.1),
)

-- ===== src/Idl.antt =====
-- `dummy_for_idl` of lib.rs, which is there to put the account types of contracts and positions
-- into the IDL: it loads one of each and does nothing.
use ithaca_smart_contract_an.Program.Errors.{Result, ok, ◌>>◌}
use ithaca_smart_contract_an.Program.State.{Contract, Position}
use ithaca_smart_contract_an.Program.Runtime.{Account, loaded}

pub record DummyContextForIdl : Type 0 where
  pub contract_account : Account Contract
  pub position_account : Account Position

unfoldable pub try_accounts : DummyContextForIdl → Result (Unit {0})
try_accounts ctx = do loaded ctx.contract_account; loaded ctx.position_account

unfoldable pub dummy_for_idl : DummyContextForIdl → Result DummyContextForIdl
dummy_for_idl ctx = do try_accounts ctx; ok ctx

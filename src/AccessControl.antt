-- ===== src/AccessControl.antt =====
-- instructions/access_control: the roles of an access controller and their members.
pub mod Init
pub mod Grant
pub mod Renounce
pub mod Check
pub mod Grants
pub mod Renounces
pub mod Sequences
pub mod AdminSpace
pub mod Sets
pub mod Members
pub mod Membership
pub mod Founding

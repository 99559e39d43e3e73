-- ===== src/TokenValidator.antt =====
-- instructions/token_validator: the tokens that the program accepts.
pub mod Init
pub mod Add
pub mod Remove
pub mod Listing
pub mod Whitelist

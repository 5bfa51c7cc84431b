-- ===== src/Rules.antt =====
-- internal/rules: what a rule makes of one message.
pub mod Payload
pub mod Value
pub mod Label
pub mod Rule
pub mod Names
pub mod Agreement
pub mod Safe

-- ===== src/AntiBot.antt =====
-- src/anti-bot: the layers that keep automated submissions out of public forms.
pub mod TokenStore
pub mod FormToken
pub mod Exchange
pub mod FormGuards
pub mod ChallengeGuards
pub mod Stack
pub mod Sanitizer
pub mod Config
pub mod FormTokenQuery
pub mod Controller
mod Tests

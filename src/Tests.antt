-- ===== src/Tests.antt =====
-- Tests, and the theorems at concrete inputs.
mod Setup
mod Codes
mod Refresh
mod Encryption
mod Server
mod SignIn
mod Mail
mod Tokens
mod Jwt
mod Prune
mod Graph
mod Workbook
mod Upstream

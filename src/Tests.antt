-- ===== src/Tests.antt =====
-- Runs on fixed inputs, and each theorem that has hypotheses at an input where they hold.
mod Address
mod App
mod Auth
mod Decision
mod ErrorHandler
mod Idempotency
mod Llm
mod McpClient
mod McpServer
mod Middleware
mod Migration
mod RateLimit
mod Remote
mod RemoteDecision
mod Requests
mod Wire

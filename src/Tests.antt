-- ===== src/Tests.antt =====
-- Runs of the definitions on concrete inputs, and each result applied at one.
mod Data
mod Wire
mod Policy
mod Limiter
mod Secret
mod Config
mod Reload
mod Server
mod System
mod Apply
mod Client
mod Served
mod Msg
mod Running
mod Watching
mod Pipe
mod Exchange
mod Shutdown
mod Routing
mod Swapping
mod Identity
mod Redaction
mod Dialing
mod Command
mod Aws

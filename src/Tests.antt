-- ===== src/Tests.antt =====
-- Runs of the definitions at concrete inputs, and the theorems at inputs that meet their hypotheses.
mod Limiting
mod Addresses
mod Geography
mod Health
mod Probes
mod Programs
mod Goroutines
mod Zones
mod Trees
mod Replies
mod Requests
mod Servers
mod Loads
mod Signatures
mod Contexts
mod Handlers
mod Logged

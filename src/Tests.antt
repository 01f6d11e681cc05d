-- ===== src/Tests.antt =====
-- The theorems at concrete inputs, and runs of the code.
mod ModularRing
mod CounterRing
mod LockedRing
mod CoarseQueue
mod FineQueue
mod FineProgram
mod Counters
mod Programs
pub mod Sockets
pub mod ReactorRun
mod ReactorEvents
mod PerClientRun
mod AutomationRun
mod AutomationProgram

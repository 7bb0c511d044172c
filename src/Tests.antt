-- ===== src/Tests.antt =====
-- Concrete runs of the model.
mod Data
mod Journal
mod Processes
mod Handlers
mod Rules
mod Exchange
mod Runs

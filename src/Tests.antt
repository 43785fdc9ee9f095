-- ===== src/Tests.antt =====
-- Runs of the model on concrete inputs, and the theorems applied to them.
mod Base
mod Tracker
mod Framing
mod Router
mod Parse
mod Serve
mod Client
mod Life
mod Discovery

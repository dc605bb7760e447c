-- ===== src/Tests.antt =====
-- A platform, an application and a node small enough to run, and the theorems at concrete inputs.
mod Toy
mod Ids
mod Nets
mod Nodes
mod Runs
mod Texts
mod Rings
mod Systems
mod Routes
mod Pipes
mod Named
mod Wrappers
mod NodeNets

-- ===== src/Tests.antt =====
-- Tests on concrete inputs, and the theorems applied where their hypotheses hold.
mod Samples
mod Idgen
mod Store
mod JsonFile
mod Commands
mod Listing
mod Table
mod Windows
mod Threads
mod Statepath
mod Surroundings
mod Main

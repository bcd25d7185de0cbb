-- ===== src/Cli.antt =====
-- internal/cli: the subcommands, each with its exit code and what it writes.
pub mod Output
pub mod Status
pub mod Resolve
pub mod Purge
pub mod Table
pub mod Listing
pub mod Tabwriter
pub mod TabwriterLaws
pub mod Aligned
pub mod TableLaws
pub mod ListingLaws
pub mod StatusLaws
pub mod CommandLaws
pub mod Commands
pub mod CommandsLaws

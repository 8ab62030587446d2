-- ===== src/Cli.antt =====
-- pkg/client/cli: the command line client. A command line is split into its fields, routed, and
-- made into a request; the requests themselves are calls of the servers.
pub mod Helpers
pub mod Router
pub mod Parses
pub mod Lines

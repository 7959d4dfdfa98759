-- ===== src/Cli.antt =====
-- The command line tool (cli/main.cpp): the commands on the list of profiles.
pub mod Profiles

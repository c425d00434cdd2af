-- ===== src/Main.antt =====
-- main.cpp: the loader, the command line and the loop over the cycles.
pub mod Loader
pub mod CommandLine
pub mod Endless
pub mod Mirror
pub mod Options
pub mod Text

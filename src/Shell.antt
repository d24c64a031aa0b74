-- ===== src/Shell.antt =====
-- The shell close-sh: shell/shell.go, shell/config, shell/command and util/strings.go.
pub mod Path
pub mod Commands
pub mod Examples

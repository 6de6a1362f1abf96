-- ===== src/Tests.antt =====
-- Tests of the model on concrete inputs, and the theorems applied to them.
mod Data
mod Engine
mod Broker
mod Render
mod Wire
mod Claude
mod ITerm2
mod Settings
mod Themes
mod Tmux
mod Notification
mod PidFile
mod Host
mod Install
mod Log
mod Server
mod Commands
mod Cli

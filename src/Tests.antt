-- ===== src/Tests.antt =====
-- Runs on concrete inputs, and each theorem at one of them.
mod Core
pub mod Network
pub mod Json
mod Texts
mod Wire
mod Controller
mod Worker
mod Server
mod Native
mod Transfer
mod Codec
mod Program
mod Ui
mod Client
mod Whole
mod Session
mod Ends
mod Hosts

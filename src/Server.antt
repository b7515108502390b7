-- ===== src/Server.antt =====
-- The SMTP server (server/src, server/include).
pub mod ErrorCode
pub mod Msg
pub mod State
pub mod SmtpCmd
pub mod MailWriter
pub mod Client
pub mod Stars
pub mod Callbacks
pub mod Table
pub mod Fsm
pub mod Session
pub mod Examples
pub mod Queue
pub mod ServerInfo
pub mod Jobs
pub mod Poll

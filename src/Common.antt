-- ===== src/Common.antt =====
-- src/common: what the modules of the application share.
pub mod JsMap
pub mod Json
pub mod Text
pub mod Patterns
pub mod Pipes
pub mod Password
pub mod NanoId
pub mod Documents
pub mod S3Key
pub mod Pagination
pub mod Errors
pub mod Exec
pub mod ExceptionFilter
mod Tests

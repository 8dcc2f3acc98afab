-- ===== src/Auth.antt =====
-- The authorization service: the files of auth/, a module for each.
pub mod Names
pub mod Messages
pub mod Extractor
pub mod Authorizer
pub mod Handler

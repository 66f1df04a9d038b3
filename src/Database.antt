-- ===== src/Database.antt =====
-- The relational store that the services share (the SQLAlchemy models of app/), its session with
-- commit and rollback, and the environment: the clock, text functions and payment providers.
pub mod Rows
pub mod Tables
pub mod Environment
pub mod Session

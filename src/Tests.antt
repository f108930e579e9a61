-- ===== src/Tests.antt =====
-- Tests: the theorems and definitions on concrete inputs.
mod Local
mod Storage
mod Api
mod Upload
mod Streams
mod Chains
mod Operations
mod Clickhouse
mod Clients
mod Deletion
mod Tables

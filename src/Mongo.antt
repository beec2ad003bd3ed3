-- ===== src/Mongo.antt =====
-- The document database: an interface with its laws, queries, and a concrete database that meets
-- the laws.
pub mod Defs
pub mod Find
pub mod Assoc

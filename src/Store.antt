-- ===== src/Store.antt =====
-- internal/store/store.go: the tables of users, groups and calls. A table is a map; the key of a
-- name is its sort key under the collation of the table, so that two names that the database takes
-- for the same have the same key.
pub mod Users
pub mod Groups
pub mod Requests
mod Tests

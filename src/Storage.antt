-- ===== src/Storage.antt =====
-- What the service keeps in its database: JavaScript values, and the queries of the PostgreSQL
-- adapter (database.js).
pub mod Json
pub mod Query

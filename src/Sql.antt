-- ===== src/Sql.antt =====
-- internal/sql: what the operator sends to SQL Server.
pub mod Quote
pub mod Client

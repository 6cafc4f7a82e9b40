-- ===== src/Filters.antt =====
-- Traffic filters: puna-core/src/model/filter.rs, and the table of them that the web tier reads,
-- puna-web/src/routes/filters.rs.
pub mod Direction
pub mod Kind
pub mod Rule
pub mod Table
pub mod Stored

-- ===== src/Store.antt =====
-- store/*.js: the tables of the gateway's database and the functions over them.
pub mod Table
pub mod Query
pub mod LogStore
pub mod InboxStore

-- ===== src/Fragments.antt =====
-- hub3/fragments: the requests of the search interface.
pub mod BreadCrumb
pub mod FacetUri
pub mod Filter
pub mod Filters
pub mod Pager
pub mod Request
mod Tests

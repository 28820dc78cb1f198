-- ===== src/DatabaseSort.antt =====
-- The external sort of a captured query result: src/eng_platform_api/services/database_sort.py.
pub mod Order
pub mod Merge
pub mod Sorted
pub mod Merged
pub mod Rows
pub mod Runs
pub mod Output
pub mod Kept
pub mod Steps
pub mod Grown
pub mod Delivered
pub mod Ordered
pub mod Errors
pub mod Refused
pub mod Tidy
pub mod Deleted

-- ===== src/Tpcc.antt =====
-- The TPC-C workload: tpcc.h, tpcc_transaction.h, tpcc_transaction.cpp and the draws of
-- tpcc_data_generator.h that choose warehouses.
pub mod Rows
pub mod Placement
pub mod Ranges
pub mod Execute
pub mod Updates
pub mod Reads
pub mod Refused
pub mod Choices
pub mod Draws
pub mod Workload
pub mod Drawn
pub mod Texts
pub mod Generate
pub mod Tests

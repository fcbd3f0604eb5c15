-- ===== src/RoundTrip.antt =====
-- What dump_data_to_file of riscv_sim_pipeline_framework.c writes, load_data_from_file reads back.
mod Digits
pub mod Row
pub mod Reads
pub mod Rows
pub mod Files

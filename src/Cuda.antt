-- ===== src/Cuda.antt =====
-- src/minillm/cuda: the host's accounts of the KV memory on the device: BatchState has the length of
-- each sequence, PageTable the physical pages behind them.
pub mod BatchState
pub mod PageTable

-- ===== src/Metrics.antt =====
-- src/metrics.c: the readers of /proc. A file is given by its contents, or nothing where `fopen`
-- or `popen` fails; `unsigned long long` is a number below 2^64.
pub mod Counters
pub mod Memory
pub mod Cpu
pub mod Traffic

-- ===== src/Tests.antt =====
-- The theorems at concrete inputs, and runs of the models.
mod Storage
mod Files
mod Paging
mod Processes
mod Scheduler
mod Library
mod Loading
mod Lists
mod Transfers
mod Memory
mod Sorting
mod Monitors
mod Numbers

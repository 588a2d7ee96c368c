-- ===== src/Examples.antt =====
-- Tests of the definitions on small inputs, and the theorems at inputs that meet their hypotheses.
mod Pages
mod Heaps
mod Tables
mod Processes
mod Growth
mod Threads
mod Sleepers
mod Semaphores
mod Strings
mod Volumes
mod Disks
mod Names
mod Blocks
mod Prints
mod Terminals
mod Requests
mod Frames
mod Ports

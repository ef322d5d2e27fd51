-- ===== src/Qemu.antt =====
-- src/osbench/qemu.py and the targets of src/osbench/targets.py: the guest's command line, its
-- life as a process, and what goes over its sockets.
pub mod Bytes
pub mod Profile
pub mod Command
pub mod Options
pub mod Machine
pub mod Stopping
pub mod Serial
pub mod Hearing
pub mod Listening
pub mod Waiting
pub mod Agent
pub mod Replying
pub mod Answering
pub mod Control
pub mod Starting
pub mod Booting
pub mod Qmp
pub mod Session

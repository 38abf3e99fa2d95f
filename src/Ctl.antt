-- ===== src/Ctl.antt =====
-- src/ctl_interface: the commands of the control program.
pub mod Command
pub mod Arguments
pub mod Client

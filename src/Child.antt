-- ===== src/Child.antt =====
-- source/host/ChildProcessCoordinator.{h,cpp}: the host's side of the out-of-process plugin host.
pub mod Lines
pub mod Coordinator

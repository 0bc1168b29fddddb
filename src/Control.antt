-- ===== src/Control.antt =====
-- libs/control: the request table of one elevator and the controller that serves it.
pub mod Requests
pub mod Controller
pub mod Fsm

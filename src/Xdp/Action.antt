-- ===== src/Xdp/Action.antt =====
-- `enum xdp_action`: what becomes of the packet.

pub data Action : Type 0 where
  aborted drop pass tx redirect : Action

-- ===== src/Tui.antt =====
-- src/tui: the output that the display keeps of a step.
pub mod RingBuffer

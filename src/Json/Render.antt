-- ===== src/Json/Render.antt =====
-- The rendering of a chain of causes: the text, the loop over the stack of frames, and
-- `gitledger_error_render_json` as a whole.
pub mod Chain
pub mod Loop
pub mod Depth
pub mod Frame
pub mod Whole

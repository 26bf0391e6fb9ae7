-- ===== src/Selector.antt =====
-- lib/selector: the selectors of labels, from their text to what they say.
pub mod Text
pub mod StringSet
pub mod Tokenizer
pub mod Ast
pub mod Parser
mod Tests

-- ===== src/Payload.antt =====
-- The dictionaries that the tool server answers with. An instant stands for its ISO text.
use agentic_ai.Base.{ℕ, String, List}

pub data Value : Type 0 where
  text : String → Value
  instant : ℕ → Value
  null : Value

abbrev pub Payload : Type 0
Payload = List (String × Value)

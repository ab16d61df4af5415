-- ===== src/Ir.antt =====
-- The request model of api/src/transport_matters/ir.py: JSON values, content blocks, tools,
-- messages, sampling parameters and the internal request.
-- A JSON number with a fraction or an exponent is a `float`, held as the text that
-- `_canonical_number` prints for it. JSON text has no NaN, no infinity and only text keys.
pub mod Value
use transport_matters.Prelude.{ℕ, Bool, Option, List, Text}
use Value.{Json, Fields}

pub record TextBlock : Type 0 where
  pub text : Text
  pub provider_data : Option Fields

pub record ToolUseBlock : Type 0 where
  pub id : Text
  pub name : Text
  pub input : Fields
  pub provider_data : Option Fields

pub record ThinkingBlock : Type 0 where
  pub text : Text
  pub provider_data : Option Fields

pub record ImageBlock : Type 0 where
  pub source : Fields
  pub provider_data : Option Fields

pub record UnknownBlock : Type 0 where
  pub raw : Fields

-- `TextBlock | ImageBlock | UnknownBlock`, the content of a tool result
pub data ResultPart : Type 0 where
  text : TextBlock → ResultPart
  image : ImageBlock → ResultPart
  unknown : UnknownBlock → ResultPart

pub record ToolResultBlock : Type 0 where
  pub tool_use_id : Text
  pub content : List ResultPart
  pub is_error : Bool
  pub provider_data : Option Fields

-- The union is told apart by the literal field `type`.
pub data ContentBlock : Type 0 where
  text : TextBlock → ContentBlock
  tool_use : ToolUseBlock → ContentBlock
  tool_result : ToolResultBlock → ContentBlock
  thinking : ThinkingBlock → ContentBlock
  image : ImageBlock → ContentBlock
  unknown : UnknownBlock → ContentBlock

pub record SystemPart : Type 0 where
  pub text : Text
  pub cache_hint : Option Fields
  pub provider_data : Option Fields

pub record ToolDef : Type 0 where
  pub name : Text
  pub description : Text
  pub input_schema : Fields
  pub provider_data : Option Fields

pub record Message : Type 0 where
  pub role : Text
  pub content : List ContentBlock
  pub provider_data : Option Fields

-- The fields are the JSON values that the request carries; `Sampling.IsValid` of
-- Override/Metadata says which of them the model's types allow.
pub record SamplingParams : Type 0 where
  pub max_tokens : Json
  pub temperature : Json
  pub top_p : Json
  pub top_k : Json
  pub stop_sequences : Json

pub record RequestMetadata : Type 0 where
  pub session_id : Option Text
  pub device_id : Option Text
  pub account_id : Option Text
  pub provider_metadata : Fields

pub record InternalRequest : Type 0 where
  pub model : Text
  pub provider : Text
  pub system : List SystemPart
  pub tools : List ToolDef
  pub messages : List Message
  pub sampling : SamplingParams
  pub metadata : RequestMetadata
  pub stream : Bool
  pub provider_extras : Fields

pub record UsageStats : Type 0 where
  pub input_tokens : ℕ
  pub output_tokens : ℕ
  pub cache_read_input_tokens : ℕ
  pub cache_creation_input_tokens : ℕ

-- `TextBlock | ToolUseBlock | ThinkingBlock | UnknownBlock`
pub data ReplyBlock : Type 0 where
  text : TextBlock → ReplyBlock
  tool_use : ToolUseBlock → ReplyBlock
  thinking : ThinkingBlock → ReplyBlock
  unknown : UnknownBlock → ReplyBlock

pub record InternalResponse : Type 0 where
  pub id : Text
  pub model : Text
  pub provider : Text
  pub stop_reason : Option Text
  pub usage : UsageStats
  pub content : List ReplyBlock
  pub provider_extras : Fields

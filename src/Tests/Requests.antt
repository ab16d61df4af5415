-- ===== src/Tests/Requests.antt =====
-- A request with a paired and an orphaned tool call, and the overrides of a session.
use transport_matters.Prelude.{true, false, none, [], ◌∷◌, Text, codes, Option, List}
use transport_matters.Prelude.Int.{pos}
use transport_matters.Ir.{
  ContentBlock, ResultPart, ToolUseBlock, ToolResultBlock, SystemPart, ToolDef, Message,
  InternalRequest,
}
use transport_matters.Ir.Value.{Json, Fields, empty, field}
use transport_matters.Override.Model.{Override, OverrideKind, OverrideValue}

abbrev pub call_bash : ToolUseBlock
call_bash = record { id = codes "t1"; name = codes "bash"; input = empty; provider_data = none }

abbrev pub call_read : ToolUseBlock
call_read = record { id = codes "t2"; name = codes "read"; input = empty; provider_data = none }

abbrev pub text_block : Text → ContentBlock
text_block s = ContentBlock.text (record { text = s; provider_data = none })

abbrev pub result_of : Text → Text → ToolResultBlock
result_of id s = record {
  tool_use_id = id;
  content = ResultPart.text (record { text = s; provider_data = none }) ∷ [];
  is_error = false;
  provider_data = none;
}

abbrev pub message : Text → List ContentBlock → Message
message role content = record { role = role; content = content; provider_data = none }

abbrev pub part : Text → SystemPart
part s = record { text = s; cache_hint = none; provider_data = none }

abbrev pub tool : Text → ToolDef
tool s = record { name = s; description = codes "runs"; input_schema = empty; provider_data = none }

abbrev pub extras : Fields
extras = field (codes "thinking") (Json.obj (field (codes "budget") (Json.int (pos 7)) empty)) empty

abbrev pub demo : InternalRequest
demo = record {
  model = codes "m";
  provider = codes "anthropic";
  system = part (codes "one") ∷ part (codes "two") ∷ part (codes "three") ∷ [];
  tools = tool (codes "bash") ∷ tool (codes "read") ∷ [];
  messages =
      message (codes "user") (text_block (codes "go") ∷ text_block [] ∷ [])
      ∷ message (codes "assistant")
          (ContentBlock.tool_use call_bash ∷ ContentBlock.tool_use call_read ∷ [])
      ∷ message (codes "user")
          (ContentBlock.tool_result (result_of (codes "t1") (codes "a long result")) ∷ [])
      ∷ [];
  sampling = record {
    max_tokens = Json.int (pos 100);
    temperature = Json.null;
    top_p = Json.null;
    top_k = Json.null;
    stop_sequences = Json.null;
  };
  metadata = record {
    session_id = none;
    device_id = none;
    account_id = none;
    provider_metadata = empty;
  };
  stream = true;
  provider_extras = extras;
}

abbrev pub cut_first : Override
cut_first = record {
  kind = OverrideKind.system_part_toggle;
  target = codes "system:0";
  value = OverrideValue.bool false;
}

abbrev pub edit_third : Override
edit_third = record {
  kind = OverrideKind.system_part_text;
  target = codes "system:2";
  value = OverrideValue.str (codes "3");
}

abbrev pub edits : List Override
edits = edit_third ∷ cut_first ∷ []

-- a decoder that knows no text
abbrev pub no_json : Text → Option Json
no_json t = none

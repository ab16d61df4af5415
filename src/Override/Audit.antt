-- ===== src/Override/Audit.antt =====
-- api/src/transport_matters/override_audit.py: character accounts of a request.
use transport_matters.Prelude.{
  ℕ, ◌+◌, Bool, Option, none, some, List, [], ◌∷◌, ◌++◌, map, Text, codes, length, sum_of,
  if◌then◌else◌,
}
use transport_matters.Prelude.Int.{ℤ, pos, ◌-ℤ◌}
use transport_matters.Ir.Value.{Fields, obj}
use transport_matters.Ir.{
  TextBlock, ImageBlock, UnknownBlock, ResultPart, ContentBlock, SystemPart, ToolDef, Message,
  InternalRequest,
}
use transport_matters.Canonical.{canonical_json, canonical_fields, json_string, comma_join}

pub record OverrideAuditEntry : Type 0 where
  pub kind : Text
  pub target : Text
  pub applied : Bool
  pub chars_delta : ℤ
  pub curated_value : Option Text

pub record OverrideAudit : Type 0 where
  pub entries : List OverrideAuditEntry
  pub chars_before : ℕ
  pub chars_after : ℕ
  pub system_chars_before : ℕ
  pub system_chars_after : ℕ
  pub tools_chars_before : ℕ
  pub tools_chars_after : ℕ
  pub messages_chars_before : ℕ
  pub messages_chars_after : ℕ

-- the property `chars_delta`
unfoldable pub audit_delta : OverrideAudit → ℤ
audit_delta a = pos a.chars_after -ℤ pos a.chars_before

unfoldable pub provider_data : Option Fields → Text
provider_data none = codes "null"
provider_data (some value) = canonical_json (obj value)

text_json : TextBlock → Text
unfolding provider_data
text_json b = canonical_fields (
    (codes "type", json_string (codes "text"))
    ∷ (codes "text", json_string b.text)
    ∷ (codes "provider_data", provider_data b.provider_data)
    ∷ [])

image_json : ImageBlock → Text
unfolding provider_data
image_json b = canonical_fields (
    (codes "type", json_string (codes "image"))
    ∷ (codes "source", canonical_json (obj b.source))
    ∷ (codes "provider_data", provider_data b.provider_data)
    ∷ [])

unknown_json : UnknownBlock → Text
unknown_json b =
    canonical_fields (
      (codes "type", json_string (codes "unknown"))
      ∷ (codes "raw", canonical_json (obj b.raw))
      ∷ [])

part_json : ResultPart → Text
unfolding text_json image_json unknown_json
part_json (ResultPart.text b) = text_json b
part_json (ResultPart.image b) = image_json b
part_json (ResultPart.unknown b) = unknown_json b

unfoldable pub canonical_block_json : ContentBlock → Text
unfolding text_json image_json unknown_json part_json provider_data
canonical_block_json (ContentBlock.text b) = text_json b
canonical_block_json (ContentBlock.tool_use b) = canonical_fields (
    (codes "type", json_string (codes "tool_use"))
    ∷ (codes "id", json_string b.id)
    ∷ (codes "name", json_string b.name)
    ∷ (codes "input", canonical_json (obj b.input))
    ∷ (codes "provider_data", provider_data b.provider_data)
    ∷ [])
canonical_block_json (ContentBlock.tool_result b) = canonical_fields (
    (codes "type", json_string (codes "tool_result"))
    ∷ (codes "tool_use_id", json_string b.tool_use_id)
    ∷ (codes "content", codes "[" ++ (comma_join (map part_json b.content) ++ codes "]"))
    ∷ (codes "is_error", if b.is_error then codes "true" else codes "false")
    ∷ (codes "provider_data", provider_data b.provider_data)
    ∷ [])
canonical_block_json (ContentBlock.thinking b) = canonical_fields (
    (codes "type", json_string (codes "thinking"))
    ∷ (codes "text", json_string b.text)
    ∷ (codes "provider_data", provider_data b.provider_data)
    ∷ [])
canonical_block_json (ContentBlock.image b) = image_json b
canonical_block_json (ContentBlock.unknown b) = unknown_json b

unfoldable pub block_chars : ContentBlock → ℕ
unfolding canonical_block_json
block_chars block = length (canonical_block_json block)

unfoldable pub tool_chars : ToolDef → ℕ
tool_chars tool =
    length tool.name + length tool.description + length (canonical_json (obj tool.input_schema))

unfoldable pub system_chars : List SystemPart → ℕ
system_chars = sum_of (λ part. length part.text)

unfoldable pub tools_chars : List ToolDef → ℕ
tools_chars = sum_of tool_chars

unfoldable pub messages_chars : List Message → ℕ
messages_chars = sum_of (λ message. sum_of block_chars message.content)

unfoldable pub count_chars_parts : InternalRequest → ℕ × ℕ × ℕ
unfolding system_chars tools_chars messages_chars
count_chars_parts ir = (system_chars ir.system, tools_chars ir.tools, messages_chars ir.messages)

unfoldable pub identity_audit : InternalRequest → OverrideAudit
unfolding count_chars_parts
identity_audit ir =
    let (system, tools, messages) = count_chars_parts ir in
    record {
      entries = [];
      chars_before = system + tools + messages;
      chars_after = system + tools + messages;
      system_chars_before = system;
      system_chars_after = system;
      tools_chars_before = tools;
      tools_chars_after = tools;
      messages_chars_before = messages;
      messages_chars_after = messages;
    }

-- ===== src/Track.antt =====
-- api/src/transport_matters/track_manager.py: the tracks of a run and what requests say about them.
-- The children hold the handlers: Track/Response registers the spawns of a response, Track/Request
-- assigns a request to a track. `json.loads` is the parameter `loads`, with `none` for a decoding
-- error.
pub mod Response
pub mod Request
pub mod Assign
pub mod Valid
pub mod Resolved
pub mod Gathered
pub mod Total
pub mod Observed
pub mod Exchange
pub mod History
use transport_matters.Prelude.{
  ℕ, Bool, true, false, not, ◌&&◌, ◌||◌, ◌==◌, Option, none, some, List, [], ◌∷◌, ◌++◌, Text, codes,
  text_eq, length, is_some, if◌then◌else◌,
}
use transport_matters.Prelude.Dict.{Dict, text_key}
use transport_matters.Ir.{
  TextBlock, ToolUseBlock, ToolResultBlock, ResultPart, ContentBlock, ToolDef, Message,
  RequestMetadata, InternalRequest,
}
use transport_matters.Ir.Value.{Json, Items, nil, cons, Fields, contains, is_true, true_or_next}
use transport_matters.Ir.Value
use transport_matters.Override.Targets.{split}
use transport_matters.Override.Messages.{result_text}

pub data TrackRole : Type 0 where
  parent subagent : TrackRole

pub data TrackStatus : Type 0 where
  opened terminating closed : TrackStatus

pub record SpawnAnchor : Type 0 where
  pub track_spawn_exchange_id : Option Text
  pub track_spawn_tool_use_id : Option Text
  pub track_spawn_order : Option ℕ

pub record TrackAssignment : Type 0 where
  pub track_id : Text
  pub parent_track_id : Option Text
  pub track_display_name : Option Text
  pub track_role : TrackRole
  pub spawn_anchor : Option SpawnAnchor

pub record TrackSignature : Type 0 where
  pub tools_count : ℕ
  pub cc_version_suffix : Option Text

pub record TrackRecord : Type 0 where
  pub track_id : Text
  pub parent_track_id : Option Text
  pub display_name : Option Text
  pub role : TrackRole
  pub status : TrackStatus
  pub signature : Option TrackSignature
  pub spawn_exchange_id : Option Text
  pub spawn_tool_use_id : Option Text
  pub spawn_order : Option ℕ

pub data SpawnProvider : Type 0 where
  anthropic codex : SpawnProvider

pub record PendingSpawn : Type 0 where
  pub spawn_id : Text
  pub provider : SpawnProvider
  pub parent_track_id : Text
  pub display_name : Option Text
  pub track_id : Option Text
  pub spawn_exchange_id : Option Text
  pub spawn_tool_use_id : Option Text
  pub spawn_order : Option ℕ

pub record RunTrackState : Type 0 where
  pub run_id : Text
  pub tracks : Dict Text TrackRecord
  pub open_spawns : Dict Text PendingSpawn
  pub wait_targets : Dict Text (List Text)
  pub track_tool_uses : Dict Text Text

-- a text that is not empty
unfoldable pub string_or_none : Option Json → Option Text
string_or_none (some (Json.str (c ∷ cs))) = some (c ∷ cs)
string_or_none _ = none

-- `a or b` on optional texts of `string_or_none`
abbrev pub or_next : Option Text → Option Text → Option Text
or_next none b = b
or_next (some a) b = some a

unfoldable pub string_items : Items → List Text
string_items nil = []
string_items (cons (Json.str s) rest) = s ∷ string_items rest
string_items (cons _ rest) = string_items rest

unfoldable pub string_list : Option Json → List Text
unfolding string_items
string_list (some (Json.arr items)) = string_items items
string_list _ = []

unfoldable pub agent_kill_targets : Fields → List Text
unfolding string_list string_or_none
agent_kill_targets input = elim (string_list (Value.get input (codes "targets"))) [
  | [] ↦ elim (string_or_none (Value.get input (codes "target"))) [ none ↦ [] | some t ↦ t ∷ [] ]
  | t ∷ ts ↦ t ∷ ts
]

abbrev last_of : List Text → Text → Text
last_of [] d = d
last_of (t ∷ ts) d = last_of ts t

-- `value.rsplit(".", maxsplit=1)[-1]`, the text after the last dot
unfoldable pub suffix_of : Json → Option Text
unfolding split
suffix_of (Json.str s) = some (last_of (split 46 s) s)
suffix_of _ = none

unfoldable pub cc_version_suffix : InternalRequest → Option Text
unfolding suffix_of is_true
cc_version_suffix r =
    let d = r.metadata.provider_metadata in
    elim (true_or_next (Value.get d (codes "cc_version"))
      (Value.get d (codes "x-claude-code-version"))) [ none ↦ none | some v ↦ suffix_of v ]

unfoldable pub request_signature : InternalRequest → TrackSignature
unfolding cc_version_suffix
request_signature r = record {
  tools_count = length r.tools;
  cc_version_suffix = cc_version_suffix r;
}

unfoldable pub block_results : List ContentBlock → List ToolResultBlock
block_results [] = []
block_results (ContentBlock.tool_result b ∷ bs) = b ∷ block_results bs
block_results (b ∷ bs) = block_results bs

unfoldable pub tool_results : List Message → List ToolResultBlock
unfolding block_results
tool_results [] = []
tool_results (m ∷ ms) = block_results m.content ++ tool_results ms

-- `text.split(":", maxsplit=1)[0]`
unfoldable pub before_colon : Text → Text
before_colon [] = []
before_colon (c ∷ cs) = if c == 58 then [] else c ∷ before_colon cs

module _ (loads : Text → Option Json) where
  -- the object that a text decodes to
  unfoldable pub load_object : Text → Option Fields
  load_object text = elim (loads text) [ some (Json.obj d) ↦ some d | _ ↦ none ]

  unfoldable pub json_payload : ToolResultBlock → Option Fields
  unfolding load_object
  json_payload result = load_object (result_text result.content)

  unfoldable pub turn_metadata : Fields → Option Fields
  unfolding load_object
  turn_metadata metadata =
      elim (string_or_none (Value.get metadata (codes "x-codex-turn-metadata"))) [
        | none ↦ none
        | some text ↦ load_object text
      ]

  unfoldable pub codex_subagent_track_id : InternalRequest → Option Text
  unfolding turn_metadata
  codex_subagent_track_id r =
      let d = r.metadata.provider_metadata in
      if text_eq r.provider (codes "codex")
        && (contains d (codes "x-openai-subagent") || contains d (codes "x-codex-parent-thread-id"))
      then elim (string_or_none (Value.get d (codes "x-codex-window-id"))) [
        | some window ↦ some (before_colon window)
        | none ↦ elim (turn_metadata d) [
          | none ↦ none
          | some payload ↦ string_or_none (Value.get payload (codes "session_id"))
        ]
      ]
      else none

  unfoldable pub codex_display_name_from_turn_metadata : Fields → Option Text
  unfolding turn_metadata
  codex_display_name_from_turn_metadata d = elim (turn_metadata d) [
    | none ↦ none
    | some payload ↦ or_next (string_or_none (Value.get payload (codes "subagent_nickname"))) (
        or_next (string_or_none (Value.get payload (codes "nickname")))
          (string_or_none (Value.get payload (codes "name"))))
  ]

  unfoldable pub codex_display_name_for_track : InternalRequest → Text → Option Text
  unfolding codex_display_name_from_turn_metadata
  codex_display_name_for_track r track_id =
      let d = r.metadata.provider_metadata in
      elim (string_or_none (Value.get d (codes "x-codex-window-id"))) [
        | none ↦ codex_display_name_from_turn_metadata d
        | some window ↦
            if text_eq (before_colon window) track_id
            then or_next (string_or_none (Value.get d (codes "x-codex-subagent-nickname")))
                (codex_display_name_from_turn_metadata d)
            else none
      ]

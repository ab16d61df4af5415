-- ===== src/Tests/Tracks.antt =====
-- A run with a subagent, and the request pipeline, at concrete inputs.
use transport_matters.Prelude.{◌≡◌, none, some, List, [], ◌∷◌, Text, codes, Bool, any}
use transport_matters.Prelude.Dict.{Dict}
use transport_matters.Ir.{InternalRequest, InternalResponse, ReplyBlock, ContentBlock}
use transport_matters.Ir.Value.{Json, empty, field}
use transport_matters.Track.{TrackAssignment, RunTrackState}
use transport_matters.Track.Assign.{new_run, classify_request}
use transport_matters.Track.Response.{observe_blocks}
use transport_matters.Track.Valid.{IsTrack}
use transport_matters.Track.Resolved.{Advances}
use transport_matters.Track.Observed.{observe_blocks-Advances}
use transport_matters.Track.Exchange.{classify_request-total, new_run-IsValid}
use transport_matters.Track.History.{
  Exchange, record_all, AllValid, AssignsAll, Keeps, empty-AllValid, record_all-total,
}
use transport_matters.Override.Pipeline.Order.{of_kind}
use transport_matters.Override.Model.{Override, OverrideKind}
use transport_matters.Override.Store.{new_store, upsert}
use transport_matters.RequestPipeline.{Services}
use transport_matters.Tests.Requests.{cut_first, demo, message, result_of, no_json}

abbrev spawn : InternalResponse
spawn = record {
  id = codes "r1";
  model = codes "m";
  provider = codes "anthropic";
  stop_reason = none;
  usage = record {
    input_tokens = 1;
    output_tokens = 1;
    cache_read_input_tokens = 0;
    cache_creation_input_tokens = 0;
  };
  content =
      ReplyBlock.tool_use (record {
        id = codes "a1";
        name = codes "Agent";
        input = field (codes "subagent_type") (Json.str (codes "scout")) empty;
        provider_data = none;
      })
      ∷ [];
  provider_extras = empty;
}

abbrev answered : InternalRequest
answered = record demo {
  messages =
      message (codes "user") (ContentBlock.tool_result (result_of (codes "a1") (codes "done")) ∷ [])
      ∷ [];
}

-- the parent spawns a subagent, the subagent asks, and its result comes back to the parent
abbrev three_exchanges : List Exchange
three_exchanges =
    record {
      run_id = codes "run";
      request = demo;
      response = some spawn;
      exchange_id = some (codes "x1");
    }
    ∷ record {
      run_id = codes "run";
      request = demo;
      response = none;
      exchange_id = some (codes "x2");
    }
    ∷ record {
      run_id = codes "run";
      request = answered;
      response = none;
      exchange_id = some (codes "x3");
    }
    ∷ []

record_all-total_example :
    (assigned : List TrackAssignment) × (after : Dict Text RunTrackState) × (record_all no_json []
        three_exchanges
      ≡ some (assigned, after))
    × AssignsAll after three_exchanges assigned
    × AllValid after
    × Keeps [] after
record_all-total_example = record_all-total no_json three_exchanges [] empty-AllValid

classify_request-total_example :
    (a : TrackAssignment) × (after : RunTrackState) × (classify_request no_json demo
        (new_run (codes "run"))
      ≡ some (a, after))
    × IsTrack after.tracks a.track_id
    × Advances (new_run (codes "run")) after
classify_request-total_example =
    classify_request-total no_json demo (new_run (codes "run")) (new_run-IsValid (codes "run"))

observe_blocks-Advances_example :
    Advances
      (new_run (codes "run"))
      (observe_blocks (codes "run") (some (codes "x1")) spawn.content (0, new_run (codes "run"))).1
observe_blocks-Advances_example =
    observe_blocks-Advances (codes "run") (some (codes "x1")) spawn.content 0
      (new_run (codes "run")) (new_run-IsValid (codes "run")) (new_run-IsValid (codes "run")).root

abbrev services : Services
services = record {
  runs = [];
  store = upsert new_store cut_first (some (some (codes "run"), none));
}

-- an override of a system part raises, on a request of any kind
abbrev raises_on_parts : List Override → InternalRequest → Bool
raises_on_parts os ir = any (of_kind OverrideKind.system_part_text) os

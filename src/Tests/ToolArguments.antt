-- ===== src/Tests/ToolArguments.antt =====
-- Runs of the normaliser of tool arguments, and its theorems at one tool.
use omnillm.Prelude.{
  index_lookup, index_insert, index_delete, index_member, index_remove, ◌≡◌, refl, true, some, none,
  List, [], ◌∷◌, Text, codes, lookup, insert, member, text_eq,
}
use omnillm.ToolArguments.Buffers.{
  flush_all, StreamState, StreamEvent, content_delta, block_stop, stream_end, tool_block,
  tool_arguments, is_normalizable, complete_arguments,
}
use omnillm.ToolArguments.Flushing
use omnillm.ToolArguments.Forwarding
use omnillm.ToolArguments.Forwarding.{skeleton}
use omnillm.ToolArguments.Normalize.{Codec, normalize_map, without_empty, normalize_json}
use omnillm.ToolArguments.Omissions
use omnillm.ToolArguments.Schemas.{
  Json, string, object, array, field, no_fields, item, no_items, Tool, optional_properties,
  not_required, is_string_at, fields, required_of, schemas_by_name,
}
use omnillm.ToolArguments.Stream.{normalize_stream}

-- `path` is required, `note` is optional.
abbrev schema : List (Text × Json)
schema =
    (codes "type", string (codes "object"))
    ∷ (
      codes "properties",
      object (
          field (codes "path") (object no_fields)
            (field (codes "note") (object no_fields) no_fields)),
    )
    ∷ (codes "required", array (item (string (codes "path")) no_items))
    ∷ []

abbrev arguments : List (Text × Json)
arguments = (codes "path", string []) ∷ (codes "note", string []) ∷ []

abbrev read : Tool
read = record { name = codes "Read"; parameters_schema = some schema }

-- A codec that decodes nothing.
abbrev opaque_codec : Codec
opaque_codec = record {
  unmarshal_raw = λ t. none;
  marshal_raw = λ m. none;
  unmarshal = λ t. none;
  marshal = λ m. none;
}

abbrev input : List StreamEvent
input =
    content_delta 0 (some (tool_block (codes "id") (codes "Read"))) none
    ∷ content_delta 0 none (some (tool_arguments (codes "{")))
    ∷ content_delta 0 none (some (tool_arguments (codes "}")))
    ∷ block_stop 0
    ∷ stream_end (codes "tool_use")
    ∷ []

normalize_map_run : normalize_map arguments (some schema) ≡ (codes "path", string []) ∷ []
unfolding normalize_map without_empty optional_properties not_required is_string_at fields
    required_of lookup member text_eq
normalize_map_run = refl

normalize_stream-skeleton_example :
    skeleton (normalize_stream opaque_codec true (read ∷ []) input) ≡ skeleton input
normalize_stream-skeleton_example =
    Forwarding.normalize_stream-skeleton opaque_codec true (read ∷ []) input

stream_run :
    normalize_stream opaque_codec true (read ∷ []) input
    ≡ content_delta 0 (some (tool_block (codes "id") (codes "Read"))) none
      ∷ content_delta 0 none none
      ∷ content_delta 0 none none
      ∷ content_delta 0 none (some (tool_arguments (codes "{}")))
      ∷ block_stop 0
      ∷ stream_end (codes "tool_use")
      ∷ []
unfolding normalize_stream is_normalizable lookup schemas_by_name text_eq insert optional_properties
    member index_lookup index_member index_remove index_insert complete_arguments index_delete
    normalize_json
stream_run = refl

abbrev half_read : StreamState
half_read = record {
  buffers =
      (
        0,
        record {
          tool_name = codes "Read";
          tool_call_id = codes "id";
          arguments = codes "{";
          order = 0;
          saw_delta = true;
        },
      )
      ∷ [];
  pass_through = [];
  next_order = 1;
}

flush_all-empty_example :
    (flush_all (record { codec = opaque_codec; policy = true; schemas = [] }) half_read).1.buffers
    ≡ []
flush_all-empty_example =
    Flushing.flush_all-empty (record { codec = opaque_codec; policy = true; schemas = [] })
      half_read

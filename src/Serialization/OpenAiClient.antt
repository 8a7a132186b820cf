-- ===== src/Serialization/OpenAiClient.antt =====
-- What a client of chat completions adds up, and the streams that it may rely on.
use omnillm.Prelude.{
  is_nil, ℕ, ◌<◌, ◌==◌, ◌≡◌, Bool, true, false, ◌&&◌, ◌||◌, not, Option, none, some, List, [], ◌∷◌,
  ◌++◌, Text, text_eq, index_lookup, pos, negsuc, is_some, if◌then◌else◌,
}
use omnillm.Serialization.Canonical.{
  CanonicalPart, text_part, image_part, thinking_part, tool_call_part, tool_result_part,
  CanonicalDelta, text_delta, thinking_delta, tool_arguments_delta, custom_input_delta,
  CanonicalEvent, stream_start, content_delta, block_stop, stream_end, stream_error,
}
use omnillm.Serialization.OpenAiStream.{
  Choice, role, content, tool_call, arguments, finish, Sent, chunk, usage_chunk, done, error_chunk,
  OpenAiStreamState, id_or_empty, convert_event_to_openai,
}

-- The piece of arguments that a delta has.
abbrev pub piece_of : Option CanonicalDelta → Text
piece_of none = []
piece_of (some (tool_arguments_delta t)) = t
piece_of (some (text_delta t)) = []
piece_of (some (thinking_delta t)) = []
piece_of (some (custom_input_delta t)) = []

-- The arguments that come in for a block.
unfoldable pub pieces_at : ℕ → List CanonicalEvent → Text
pieces_at i [] = []
pieces_at i (content_delta j block delta ∷ es) =
    let rest = pieces_at i es in if j == i then piece_of delta ++ rest else rest
pieces_at i (stream_start id model ∷ es) = pieces_at i es
pieces_at i (block_stop j ∷ es) = pieces_at i es
pieces_at i (stream_end reason stopped_at usage ∷ es) = pieces_at i es
pieces_at i (stream_error type message ∷ es) = pieces_at i es

abbrev pub choice_arguments : ℕ → Choice → Text
choice_arguments n (arguments (pos m) t) = if m == n then t else []
choice_arguments n (arguments (negsuc m) t) = []
choice_arguments n (role t) = []
choice_arguments n (content t) = []
choice_arguments n (tool_call m id name) = []
choice_arguments n (finish reason) = []

abbrev pub sent_arguments : ℕ → Sent → Text
sent_arguments n (chunk id model c) = choice_arguments n c
sent_arguments n (usage_chunk id model u) = []
sent_arguments n done = []
sent_arguments n (error_chunk type message) = []

-- What a client adds up for the call of an index.
unfoldable pub arguments_at : ℕ → List Sent → Text
arguments_at n [] = []
arguments_at n (x ∷ xs) = sent_arguments n x ++ arguments_at n xs

-- The block has a call.
abbrev pub has_call : ℕ → OpenAiStreamState → Bool
has_call i s = is_some (index_lookup i s.tool_call_index_by_block)

-- A call is announced once for its block, without arguments, and arguments are for a block that has
-- a call.
unfoldable pub is_orderly_part :
    ℕ → Option CanonicalPart → Option CanonicalDelta → OpenAiStreamState → Bool
is_orderly_part i (some (tool_call_part id name args)) delta s =
    if text_eq (id_or_empty (index_lookup i s.tool_call_id_by_block)) id
    then has_call i s
    else not (has_call i s) && is_nil (piece_of delta)
is_orderly_part i none delta s = has_call i s || is_nil (piece_of delta)
is_orderly_part i (some (text_part t)) delta s = has_call i s || is_nil (piece_of delta)
is_orderly_part i (some (image_part t)) delta s = has_call i s || is_nil (piece_of delta)
is_orderly_part i (some (thinking_part t g)) delta s = has_call i s || is_nil (piece_of delta)
is_orderly_part i (some (tool_result_part t)) delta s = has_call i s || is_nil (piece_of delta)

unfoldable pub is_orderly : CanonicalEvent → OpenAiStreamState → Bool
unfolding is_orderly_part
is_orderly (content_delta i block delta) s = is_orderly_part i block delta s
is_orderly (stream_start id model) s = false
is_orderly (block_stop i) s = true
is_orderly (stream_end reason stopped_at usage) s = true
is_orderly (stream_error type message) s = true

abbrev pub IsOrderly : List CanonicalEvent → OpenAiStreamState → Type 0
IsOrderly [] s = Unit
IsOrderly (e ∷ es) s = (is_orderly e s ≡ true) × IsOrderly es (convert_event_to_openai e s).1

-- The calls of different blocks have different indices, below the next one.
abbrev pub IsValid : OpenAiStreamState → Type 0
IsValid s =
    ((i n : ℕ) → index_lookup i s.tool_call_index_by_block ≡ some n → n < s.tool_call_index)
    × ((i j n : ℕ)
        → index_lookup i s.tool_call_index_by_block ≡ some n
        → index_lookup j s.tool_call_index_by_block ≡ some n
        → i ≡ j)

-- The later state has the calls of the earlier one.
abbrev pub Keeps : OpenAiStreamState → OpenAiStreamState → Type 0
Keeps s s' =
    (i n : ℕ)
    → index_lookup i s.tool_call_index_by_block ≡ some n
    → index_lookup i s'.tool_call_index_by_block ≡ some n

-- What a step keeps, and what it sends for the calls that the last state has.
abbrev pub Steps : ℕ → Text → OpenAiStreamState → List Sent × OpenAiStreamState → Type 0
Steps i piece s (out, s') =
    Keeps s s'
    × IsValid s'
    × ((final : OpenAiStreamState) (n : ℕ)
        → Keeps s' final
        → IsValid final
        → index_lookup i final.tool_call_index_by_block ≡ some n
        → arguments_at n out ≡ piece)

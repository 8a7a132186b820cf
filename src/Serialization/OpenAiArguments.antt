-- ===== src/Serialization/OpenAiArguments.antt =====
-- The arguments of tool calls in a stream of chat completions.
use omnillm.Prelude.{
  ℕ, ◌≡◌, refl, sym, ap, ◌∙◌, false, some, List, [], ◌∷◌, ◌++◌, Text, text_eq, index_lookup,
}
use omnillm.Serialization.Canonical.{
  tool_call_part, tool_arguments_delta, CanonicalEvent, content_delta,
}
use omnillm.ToolArguments.Schemas.{Json}
use omnillm.Serialization.OpenAiStream.{
  OpenAiStreamState, id_or_empty, on_tool_call, on_block_delta, convert_event_to_openai,
  convert_events_to_openai,
}
use omnillm.Serialization.OpenAiClient.{pieces_at, arguments_at, IsOrderly, IsValid, Steps}
use omnillm.Serialization.OpenAiSteps.{
  arguments_at-append, quiet-Steps, event_piece, convert_event-Steps, pieces_at-event,
}

convert_events-Steps :
    (i : ℕ) (es : List CanonicalEvent) (s : OpenAiStreamState)
    → IsValid s
    → IsOrderly es s
    → Steps i (pieces_at i es) s (convert_events_to_openai es s)
unfolding convert_events_to_openai pieces_at arguments_at
convert_events-Steps i [] s v h = quiet-Steps i s [] v (λ n. refl)
convert_events-Steps i (e ∷ es) s v (o, h) =
    let (k, v', sent) = convert_event-Steps i e s v o in
    let (k', v'', sent') = convert_events-Steps i es (convert_event_to_openai e s).1 v' h in
    (
      (λ j n f. k' j n (k j n f)),
      v'',
      (λ final n l w f.
          arguments_at-append n (convert_event_to_openai e s).0 _
          ∙ ap
              (λ t.
                t ++ arguments_at n (convert_events_to_openai es (convert_event_to_openai e s).1).0)
              (sent final n (λ j m g. l j m (k' j m g)) w f)
          ∙ ap (λ t. event_piece i e ++ t) (sent' final n l w f)
          ∙ sym (pieces_at-event i e es)),
    )

-- From a state in which the calls of different blocks have different indices below the next one: when
-- every call is announced once for its block, without arguments in the same event, and arguments are
-- for a block that has a call, what a client adds up for the index of a call is exactly the arguments
-- that came in for its block, however the calls interleave; and different blocks still have
-- different indices.
pub arguments_at-pieces_at :
    (i n : ℕ) (es : List CanonicalEvent) (s : OpenAiStreamState)
    → IsValid s
    → IsOrderly es s
    → index_lookup i (convert_events_to_openai es s).1.tool_call_index_by_block ≡ some n
    → (arguments_at n (convert_events_to_openai es s).0 ≡ pieces_at i es)
      × IsValid (convert_events_to_openai es s).1
arguments_at-pieces_at i n es s v h f =
    let (k, v', sent) = convert_events-Steps i es s v h in
    (sent (convert_events_to_openai es s).1 n (λ j m g. g) v' f, v')

-- Arguments that come with the announcement of a call are lost: what is sent for such an event and
-- for all events behind it does not depend on them.
pub announcement_drops_arguments :
    (i : ℕ) (id name : Text) (args : List (Text × Json)) (t t' : Text) (es : List CanonicalEvent)
    (s : OpenAiStreamState)
    → text_eq (id_or_empty (index_lookup i s.tool_call_id_by_block)) id ≡ false
    → convert_events_to_openai
        (content_delta i (some (tool_call_part id name args)) (some (tool_arguments_delta t)) ∷ es)
        s
      ≡ convert_events_to_openai
          (content_delta i (some (tool_call_part id name args)) (some (tool_arguments_delta t'))
            ∷ es)
          s
unfolding convert_events_to_openai convert_event_to_openai on_block_delta on_tool_call
announcement_drops_arguments i id name args t t' es s h = rw h refl

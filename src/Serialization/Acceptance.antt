-- ===== src/Serialization/Acceptance.antt =====
-- Every stream that the serializer sends is one that a client accepts.
use mathlib.Core.List.{append_assoc, append-nil}
use omnillm.Prelude.{
  ℕ, ◌≡◌, refl, sym, ap, subst, ◌∙◌, true, false, not, Option, none, some, List, [], ◌∷◌, ◌++◌,
  arith, All, Text, index_lookup, index_delete, index_remove, index_member, if_false,
}
use omnillm.Serialization.AnthropicMessage.{AnthropicUsage, convert_stop_reason_to_anthropic}
use omnillm.Serialization.AnthropicState.{
  AnthropicEvent, content_block_stop, message_delta, message_stop, OpenBlock, AnthropicStreamState,
  close_all, close_loop, stop_events,
}
use omnillm.Serialization.AnthropicStream.{
  start_message, convert_event, convert_events, zero_usage, finalize_anthropic_stream,
}
use omnillm.Serialization.Canonical.{StopReason, Usage, CanonicalEvent, stream_start, stream_end}
use omnillm.Serialization.OpenBlocks.{
  provider_indices, client_indices, Apart, delete_absent, remove_absent,
}
use omnillm.Serialization.Protocol.{
  Client, finished, client_run, client_step, new_client, Accepts, Accepts-append,
}
use omnillm.Serialization.Tracking.{
  streaming_client, view, IsCoherent, Tracks, stop-Accepts, nothing-Tracks, is_body,
  convert_event-Tracks,
}

abbrev pub finished_client : ℕ → Client
finished_client n = record { phase = finished; open_indices = []; next = n }

first_lookup :
    (p : ℕ) (b : OpenBlock) (blocks : List (ℕ × OpenBlock))
    → index_lookup p ((p, b) ∷ blocks) ≡ some b
unfolding index_lookup
first_lookup p b blocks = ground arith

first_delete :
    (p : ℕ) (b : OpenBlock) (blocks : List (ℕ × OpenBlock))
    → index_lookup p blocks ≡ none
    → index_delete p ((p, b) ∷ blocks) ≡ blocks
unfolding index_delete
first_delete p b blocks fresh = ground (arith, delete_absent p blocks)

first_remove : (i : ℕ) (js : List ℕ) → index_member i js ≡ false → index_remove i (i ∷ js) ≡ js
unfolding index_remove
first_remove i js h = ground (arith, remove_absent i js)

first_member : (i : ℕ) (js : List ℕ) → index_member i (i ∷ js) ≡ true
unfolding index_member
first_member i js = ground arith

-- The loop closes every block, and the client follows.
abbrev Drains : ℕ → List (ℕ × OpenBlock) → List AnthropicEvent × List (ℕ × OpenBlock) → Type 0
Drains n blocks closed =
    Accepts (streaming_client (client_indices blocks) n) closed.0 (streaming_client [] n)
    × (closed.1 ≡ [])

close_loop-Drains :
    (n : ℕ) (blocks : List (ℕ × OpenBlock))
    → Apart n blocks
    → Drains n blocks (close_loop (provider_indices blocks) blocks)
unfolding close_loop Accepts client_run
close_loop-Drains n [] a = (refl, refl)
close_loop-Drains n ((p, b) ∷ blocks) (fresh, apart, below, rest) =
    let (accepted, emptied) = close_loop-Drains n blocks rest in
    subst
      (λ bs. Drains n ((p, b) ∷ blocks) (
        stop_events (index_lookup p ((p, b) ∷ blocks))
            ++ (close_loop (provider_indices blocks) bs).0,
        (close_loop (provider_indices blocks) bs).1,
      ))
      (sym (first_delete p b blocks fresh))
      (
        subst
            (λ o.
              Accepts (streaming_client (client_indices ((p, b) ∷ blocks)) n)
                (stop_events o ++ (close_loop (provider_indices blocks) blocks).0)
                (streaming_client [] n))
            (sym (first_lookup p b blocks))
            (Accepts-append (streaming_client (client_indices ((p, b) ∷ blocks)) n)
              (streaming_client (client_indices blocks) n) (streaming_client [] n)
              (content_block_stop b.anthropic_idx ∷ [])
              (close_loop (provider_indices blocks) blocks).0
              (stop-Accepts b.anthropic_idx n (client_indices ((p, b) ∷ blocks))
                  (first_member b.anthropic_idx (client_indices blocks))
                ∙ ap (λ l. some (streaming_client l n))
                    (first_remove b.anthropic_idx (client_indices blocks) apart))
              accepted),
        emptied,
      )

close_all-Accepts :
    (s : AnthropicStreamState)
    → IsCoherent s
    → Accepts (view s) (close_all s).0 (streaming_client [] s.next_content_block_index)
unfolding IsCoherent view close_all
close_all-Accepts s (apart, order, sent) =
    subst
      (λ o.
        Accepts (view s) (close_loop o s.open_blocks).0
          (streaming_client [] s.next_content_block_index))
      (sym order) (close_loop-Drains s.next_content_block_index s.open_blocks apart).0

-- The end of a message, behind the blocks.
ends-Accepts :
    (s : AnthropicStreamState) (reason : Text) (t : Option Text) (u : Option AnthropicUsage)
    → IsCoherent s
    → Accepts
        (view s)
        ((close_all s).0 ++ message_delta reason t u ∷ message_stop ∷ [])
        (finished_client s.next_content_block_index)
unfolding client_run client_step Accepts
ends-Accepts s reason t u h =
    Accepts-append (view s) (streaming_client [] s.next_content_block_index)
      (finished_client s.next_content_block_index) (close_all s).0
      (message_delta reason t u ∷ message_stop ∷ []) (close_all-Accepts s h) refl

abbrev pub IsBody : List CanonicalEvent → Type 0
IsBody = All (λ e. is_body e ≡ true)

convert_events-Tracks :
    (body : List CanonicalEvent) (s : AnthropicStreamState)
    → IsBody body
    → IsCoherent s
    → Tracks s (convert_events body s)
unfolding convert_events
convert_events-Tracks [] s b h = nothing-Tracks s h
convert_events-Tracks (e ∷ body) s (be, b) h =
    let (h', k) = convert_event-Tracks e s be h in
    let (h'', k') = convert_events-Tracks body (convert_event e s).1 b h' in
    (
      h'',
      Accepts-append (view s) (view (convert_event e s).1) (view (convert_events (e ∷ body) s).1)
          (convert_event e s).0 (convert_events body (convert_event e s).1).0 k k',
    )

convert_events-append :
    (xs ys : List CanonicalEvent) (s : AnthropicStreamState)
    → (convert_events (xs ++ ys) s).0
      ≡ (convert_events xs s).0 ++ (convert_events ys (convert_events xs s).1).0
unfolding convert_events
convert_events-append [] ys s = refl
convert_events-append (e ∷ xs) ys s =
    ap (λ l. (convert_event e s).0 ++ l) (convert_events-append xs ys (convert_event e s).1)
    ∙ sym (append_assoc (convert_event e s).0 _ _)

start_message-IsCoherent : (s : AnthropicStreamState) → IsCoherent (start_message s)
unfolding IsCoherent start_message
start_message-IsCoherent s = (tt, refl, refl)

-- What is sent up to a point between the start and the end.
begun-Tracks :
    (id model : Text) (body : List CanonicalEvent) (s : AnthropicStreamState)
    → IsBody body
    → IsCoherent (convert_events (stream_start id model ∷ body) s).1
      × Accepts new_client
          (convert_events (stream_start id model ∷ body) s).0
          (view (convert_events (stream_start id model ∷ body) s).1)
unfolding convert_events convert_event Accepts client_run client_step view start_message
begun-Tracks id model body s b =
    convert_events-Tracks body (start_message s) b (start_message-IsCoherent s)

abbrev pub begun : Text → Text → List CanonicalEvent → AnthropicStreamState → AnthropicStreamState
begun id model body s = (convert_events (stream_start id model ∷ body) s).1

stream_end-Accepts :
    (reason : StopReason) (stopped_at : Option Text) (usage : Option Usage)
    (s : AnthropicStreamState)
    → IsCoherent s
    → Accepts
        (view s)
        (convert_events (stream_end reason stopped_at usage ∷ []) s).0
        (finished_client s.next_content_block_index)
unfolding convert_events convert_event
stream_end-Accepts reason stopped_at usage s h =
    subst (λ es. Accepts (view s) es (finished_client s.next_content_block_index))
      (sym (append-nil (convert_event (stream_end reason stopped_at usage) s).0))
      (ends-Accepts s (convert_stop_reason_to_anthropic reason) stopped_at _ h)

-- A stream of a start, any content deltas, block stops and errors, and an end: whatever the block
-- indices, however the deltas of concurrent blocks interleave and whatever is suppressed, a client
-- accepts all that is sent. Blocks are numbered from 0 and opened once, every piece goes to an open
-- block, and each block is closed before the message ends.
pub convert_events-Accepts :
    (id model : Text) (body : List CanonicalEvent) (reason : StopReason) (stopped_at : Option Text)
    (usage : Option Usage) (s : AnthropicStreamState)
    → IsBody body
    → Accepts new_client
        (convert_events
          ((stream_start id model ∷ body) ++ stream_end reason stopped_at usage ∷ [])
          s).0
        (finished_client (begun id model body s).next_content_block_index)
convert_events-Accepts id model body reason stopped_at usage s b =
    let (h, k) = begun-Tracks id model body s b in
    subst
      (λ es.
        Accepts new_client es (finished_client (begun id model body s).next_content_block_index))
      (sym (
        convert_events-append (stream_start id model ∷ body)
          (stream_end reason stopped_at usage ∷ []) s))
      (Accepts-append new_client (view (begun id model body s)) _
        (convert_events (stream_start id model ∷ body) s).0 _ k
        (stream_end-Accepts reason stopped_at usage (begun id model body s) h))

finalize-sent :
    (reason : StopReason) (s : AnthropicStreamState)
    → s.message_start_sent ≡ true
    → finalize_anthropic_stream reason s ≡ (
      (close_all s).0
          ++ message_delta (convert_stop_reason_to_anthropic reason) none (some zero_usage)
            ∷ message_stop
            ∷ [],
      record (close_all s).1 { message_start_sent = false },
    )
unfolding finalize_anthropic_stream
finalize-sent reason s sent = if_false _ _ (ap not sent)

-- A stream whose upstream breaks off before its end is finalised: the client accepts all that is
-- sent, the events of the finalisation included, and finalising once more sends nothing.
pub finalize_anthropic_stream-Accepts :
    (id model : Text) (body : List CanonicalEvent) (reason again : StopReason)
    (s : AnthropicStreamState)
    → IsBody body
    → Accepts new_client
        ((convert_events (stream_start id model ∷ body) s).0
          ++ (finalize_anthropic_stream reason (begun id model body s)).0)
        (finished_client (begun id model body s).next_content_block_index)
      × ((finalize_anthropic_stream again
            (finalize_anthropic_stream reason (begun id model body s)).1).0
          ≡ [])
unfolding IsCoherent finalize_anthropic_stream
finalize_anthropic_stream-Accepts id model body reason again s b =
    let (h, k) = begun-Tracks id model body s b in
    let s' = begun id model body s in
    let once = finalize-sent reason s' h.2 in
    (
      subst
          (λ f.
            Accepts new_client ((convert_events (stream_start id model ∷ body) s).0 ++ f)
              (finished_client s'.next_content_block_index))
          (sym (ap (λ r. r.0) once))
          (Accepts-append new_client (view s') (finished_client s'.next_content_block_index)
            (convert_events (stream_start id model ∷ body) s).0 _ k
            (ends-Accepts s' (convert_stop_reason_to_anthropic reason) none (some zero_usage) h)),
      ap (λ r. (finalize_anthropic_stream again r.1).0) once,
    )

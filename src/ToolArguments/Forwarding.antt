-- ===== src/ToolArguments/Forwarding.antt =====
-- The stream behind `NormalizeStream`, arguments of tool calls aside.
use mathlib.Core.List.{append_assoc, append-nil}
use omnillm.Prelude.{
  index_lookup, index_member, ℕ, zero, suc, ◌≡◌, refl, ap, sym, ◌∙◌, Bool, not, ◌||◌, ◌&&◌, Option,
  none, some, List, [], ◌∷◌, ◌++◌, Text, text_eq, if_cases, Option-cases, inl, inr, length,
}
use omnillm.ToolArguments.Normalize.{Codec}
use omnillm.ToolArguments.Schemas.{Tool}
use omnillm.ToolArguments.Buffers.{
  Block, tool_block, other_block, Delta, tool_arguments, other_delta, StreamEvent, content_delta,
  block_stop, stream_end, stream_error, other_event, StreamBuffer, StreamState, Normalizer, flush,
  flush_events, flush_rounds, flush_all, select_first, is_normalizable,
}
use omnillm.ToolArguments.Stream.{
  announce, on_block, on_delta, on_event, normalize_events, normalize_stream, unpass,
}

-- A content delta whose delta has gone.
unfoldable bare : ℕ → Option Block → List StreamEvent
bare i none = []
bare i (some b) = content_delta i (some b) none ∷ []

unfoldable skeleton_of_delta : ℕ → Option Block → Option Delta → List StreamEvent
unfolding bare
skeleton_of_delta i block none = bare i block
skeleton_of_delta i block (some (tool_arguments t)) = bare i block
skeleton_of_delta i block (some (other_delta t)) = content_delta i block (some (other_delta t)) ∷ []

unfoldable skeleton_of : StreamEvent → List StreamEvent
unfolding skeleton_of_delta
skeleton_of (content_delta i block delta) = skeleton_of_delta i block delta
skeleton_of (block_stop i) = block_stop i ∷ []
skeleton_of (stream_end t) = stream_end t ∷ []
skeleton_of (stream_error t) = stream_error t ∷ []
skeleton_of (other_event t) = other_event t ∷ []

-- The events without the pieces of tool arguments, and without the deltas that are empty then.
unfoldable pub skeleton : List StreamEvent → List StreamEvent
unfolding skeleton_of
skeleton [] = []
skeleton (e ∷ events) = skeleton_of e ++ skeleton events

skeleton-append : (xs ys : List StreamEvent) → skeleton (xs ++ ys) ≡ skeleton xs ++ skeleton ys
unfolding skeleton
skeleton-append [] ys = refl
skeleton-append (e ∷ xs) ys =
    ap (λ l. skeleton_of e ++ l) (skeleton-append xs ys)
    ∙ sym (append_assoc (skeleton_of e) (skeleton xs) (skeleton ys))

-- The events are only pieces of arguments.
unfoldable OnlyArguments : List StreamEvent → Type 0
OnlyArguments events = skeleton events ≡ []

flush_events-OnlyArguments :
    (n : Normalizer) (i : ℕ) (o : Option StreamBuffer) → OnlyArguments (flush_events n i o)
unfolding flush_events OnlyArguments skeleton skeleton_of skeleton_of_delta bare
flush_events-OnlyArguments n i none = refl
flush_events-OnlyArguments n i (some b) =
    if_cases OnlyArguments b.saw_delta _ _ (λ _. refl) (λ _. refl)

flush-OnlyArguments : (n : Normalizer) (i : ℕ) (s : StreamState) → OnlyArguments (flush n i s).0
unfolding flush
flush-OnlyArguments n i s = flush_events-OnlyArguments n i (index_lookup i s.buffers)

append-OnlyArguments :
    (xs ys : List StreamEvent) → OnlyArguments xs → OnlyArguments ys → OnlyArguments (xs ++ ys)
unfolding OnlyArguments
append-OnlyArguments xs ys p q = skeleton-append xs ys ∙ ap (λ l. l ++ skeleton ys) p ∙ q

flush_rounds-OnlyArguments :
    (fuel : ℕ) (n : Normalizer) (s : StreamState) → OnlyArguments (flush_rounds fuel n s).0
unfolding flush_rounds OnlyArguments skeleton
flush_rounds-OnlyArguments zero n s = refl
flush_rounds-OnlyArguments (suc fuel) n s = elim (Option-cases (select_first none s.buffers)) [
  | inl e ↦ rw (e, flush_rounds) refl
  | inr ((i, order), e) ↦
      rw (e, flush_rounds)
        (append-OnlyArguments (flush n i s).0 (flush_rounds fuel n (flush n i s).1).0
          (flush-OnlyArguments n i s) (flush_rounds-OnlyArguments fuel n (flush n i s).1))
]

announce-OnlyArguments :
    (n : Normalizer) (i : ℕ) (id name : Text) (o : Option StreamBuffer) (s : StreamState)
    → OnlyArguments (announce n i id name o s).0
unfolding announce OnlyArguments skeleton
announce-OnlyArguments n i id name none s = refl
announce-OnlyArguments n i id name (some b) s =
    if_cases (λ (r : List StreamEvent × StreamState). OnlyArguments r.0)
      (text_eq b.tool_name [] && text_eq b.tool_call_id []) _ _ (λ _. refl)
      (λ _.
        if_cases (λ (r : List StreamEvent × StreamState). OnlyArguments r.0)
          (not (text_eq b.tool_name name) || not (text_eq b.tool_call_id id)) _ _
          (λ _. flush-OnlyArguments n i s) (λ _. refl))

on_block-OnlyArguments :
    (n : Normalizer) (i : ℕ) (o : Option Block) (s : StreamState)
    → OnlyArguments (on_block n i o s).0
unfolding on_block OnlyArguments skeleton
on_block-OnlyArguments n i none s = refl
on_block-OnlyArguments n i (some (other_block t)) s = flush-OnlyArguments n i (unpass i s)
on_block-OnlyArguments n i (some (tool_block id name)) s =
    if_cases (λ (r : List StreamEvent × StreamState). OnlyArguments r.0)
      (not (is_normalizable n name)) _ _ (λ _. flush-OnlyArguments n i s)
      (λ _. announce-OnlyArguments n i id name _ (unpass i s))

on_delta-skeleton :
    (i : ℕ) (block : Option Block) (d : Option Delta) (s : StreamState)
    → skeleton_of_delta i block (on_delta i d s).0 ≡ skeleton_of_delta i block d
unfolding skeleton_of_delta on_delta
on_delta-skeleton i block none s = refl
on_delta-skeleton i block (some (other_delta t)) s = refl
on_delta-skeleton i block (some (tool_arguments t)) s =
    if_cases (λ (r : Option Delta × StreamState). skeleton_of_delta i block r.0 ≡ bare i block)
      (index_member i s.pass_through) _ _ (λ _. refl) (λ _. refl)

-- Events that are only arguments, and then an event, have the skeleton of the event.
skeleton-behind :
    (xs : List StreamEvent) (e : StreamEvent)
    → OnlyArguments xs
    → skeleton (xs ++ e ∷ []) ≡ skeleton_of e
unfolding OnlyArguments skeleton
skeleton-behind xs e p =
    skeleton-append xs (e ∷ []) ∙ ap (λ l. l ++ skeleton (e ∷ [])) p ∙ append-nil (skeleton_of e)

on_event-skeleton :
    (n : Normalizer) (e : StreamEvent) (s : StreamState)
    → skeleton (on_event n e s).0 ≡ skeleton_of e
unfolding on_event skeleton skeleton_of flush_all
on_event-skeleton n (content_delta i block d) s =
    skeleton-behind (on_block n i block s).0 (content_delta i block _)
      (on_block-OnlyArguments n i block s)
    ∙ on_delta-skeleton i block d _
on_event-skeleton n (block_stop i) s =
    skeleton-behind (flush n i (unpass i s)).0 (block_stop i) (flush-OnlyArguments n i (unpass i s))
on_event-skeleton n (stream_end t) s =
    skeleton-behind (flush_all n s).0 (stream_end t)
      (flush_rounds-OnlyArguments (length s.buffers) n s)
on_event-skeleton n (stream_error t) s =
    skeleton-behind (flush_all n s).0 (stream_error t)
      (flush_rounds-OnlyArguments (length s.buffers) n s)
on_event-skeleton n (other_event t) s = refl

normalize_events-skeleton :
    (n : Normalizer) (input : List StreamEvent) (s : StreamState)
    → skeleton (normalize_events n input s) ≡ skeleton input
unfolding normalize_events skeleton flush_all OnlyArguments
normalize_events-skeleton n [] s = flush_rounds-OnlyArguments (length s.buffers) n s
normalize_events-skeleton n (e ∷ input) s =
    skeleton-append (on_event n e s).0 _
    ∙ ap (λ l. l ++ skeleton (normalize_events n input (on_event n e s).1))
        (on_event-skeleton n e s)
    ∙ ap (λ l. skeleton_of e ++ l) (normalize_events-skeleton n input (on_event n e s).1)

-- Pieces of tool arguments aside, the stream that is sent is the one that was received: every
-- announcement, every other delta, every stop and every terminal event, each once and in order,
-- whatever the schemas are and however the arguments are encoded.
pub normalize_stream-skeleton :
    (codec : Codec) (policy : Bool) (tools : List Tool) (input : List StreamEvent)
    → skeleton (normalize_stream codec policy tools input) ≡ skeleton input
unfolding normalize_stream
normalize_stream-skeleton codec policy tools input = normalize_events-skeleton _ input _

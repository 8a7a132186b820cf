-- ===== src/Serialization/Tracking.antt =====
-- The client follows what is sent for each event between the start and the end of a stream.
use omnillm.Prelude.{
  ℕ, suc, ◌≡◌, refl, sym, ap, subst, ◌∙◌, Bool, true, false, not, ◌&&◌, Option, none, some, List,
  [], ◌∷◌, ◌++◌, arith, is_some, index_lookup-index_delete, index_lookup, index_delete,
  index_member, index_remove, if_cases, if_false,
}
use omnillm.Serialization.AnthropicState.{
  BlockType, block_type_eq, get_block_type, create_block_start, content_block_stop, OpenBlock,
  AnthropicStreamState, open_block, close_block, sync_closed, is_empty, remove_first,
}
use omnillm.Serialization.AnthropicStream.{
  Converted, suppress, start_events, announce_block, on_part, delta_events, routed_events,
  route_delta, on_typed, on_content, on_block_stop, convert_event, is_thinking_block,
  is_thinking_delta, is_index,
}
use omnillm.Serialization.Canonical.{
  CanonicalPart, text_part, image_part, thinking_part, tool_call_part, tool_result_part,
  CanonicalDelta, text_delta, thinking_delta, tool_arguments_delta, custom_input_delta,
  CanonicalEvent, stream_start, content_delta, block_stop, stream_end, stream_error,
}
use omnillm.Serialization.OpenBlocks.{
  provider_indices, client_indices, Apart, lookup-member, client_indices-index_delete,
  provider_indices-index_delete, index_delete-Apart, insert_absent, client_indices-snoc,
  provider_indices-snoc, snoc-Apart,
}
use omnillm.Serialization.Protocol.{
  Client, streaming, client_run, client_step, Accepts, Accepts-append,
}

abbrev pub streaming_client : List ℕ → ℕ → Client
streaming_client opened n = record { phase = streaming; open_indices = opened; next = n }

-- The client of a stream whose message has started.
unfoldable pub view : AnthropicStreamState → Client
view s = streaming_client (client_indices s.open_blocks) s.next_content_block_index

-- The maps of the state agree, and the message has started.
unfoldable pub IsCoherent : AnthropicStreamState → Type 0
IsCoherent s =
    Apart s.next_content_block_index s.open_blocks
    × (s.open_order ≡ provider_indices s.open_blocks)
    × (s.message_start_sent ≡ true)

-- The state stays coherent, and the client follows the events that are sent.
abbrev pub Tracks : AnthropicStreamState → Converted → Type 0
Tracks s c = IsCoherent c.1 × Accepts (view s) c.0 (view c.1)

-- A change of state that the client cannot see.
abbrev pub Unseen : AnthropicStreamState → AnthropicStreamState → Type 0
Unseen s s' = IsCoherent s' × (view s' ≡ view s)

pub sync_closed-Unseen : (s : AnthropicStreamState) → IsCoherent s → Unseen s (sync_closed s)
unfolding IsCoherent view sync_closed
sync_closed-Unseen s h =
    if_cases (Unseen s) (is_empty s.open_order) _ _ (λ _. (h, refl)) (λ _. (h, refl))

suppress-Unseen :
    (i : ℕ) (block : Option CanonicalPart) (delta : Option CanonicalDelta)
    (s : AnthropicStreamState)
    → IsCoherent s
    → Unseen s (suppress i block delta s).1
unfolding IsCoherent view suppress
suppress-Unseen i block delta s h =
    if_cases (λ (r : Bool × AnthropicStreamState). Unseen s r.1) (not s.suppress_thinking_blocks) _
      _ (λ _. (h, refl))
      (λ _.
        if_cases (λ (r : Bool × AnthropicStreamState). Unseen s r.1) (is_thinking_block block) _ _
          (λ _. (h, refl))
          (λ _.
            if_cases (λ (r : Bool × AnthropicStreamState). Unseen s r.1)
              (s.suppression_active && is_index s.suppressed_provider_idx i) _ _
              (λ _.
                if_cases (λ (r : Bool × AnthropicStreamState). Unseen s r.1)
                  (is_thinking_delta delta) _ _ (λ _. (h, refl)) (λ _. (h, refl)))
              (λ _. (h, refl))))

pub stop-Accepts :
    (idx n : ℕ) (opened : List ℕ)
    → index_member idx opened ≡ true
    → Accepts
        (streaming_client opened n)
        (content_block_stop idx ∷ [])
        (streaming_client (index_remove idx opened) n)
unfolding Accepts client_run client_step
stop-Accepts idx n opened h = ground arith

-- A block that is open is closed.
close_block-Tracks :
    (i : ℕ) (s : AnthropicStreamState) {b : OpenBlock}
    → IsCoherent s
    → index_lookup i s.open_blocks ≡ some b
    → Tracks s (content_block_stop b.anthropic_idx ∷ [], close_block i s)
unfolding IsCoherent view close_block Accepts
close_block-Tracks i s {b} (apart, order, sent) h =
    let removed : AnthropicStreamState = record s {
      open_blocks = index_delete i s.open_blocks;
      open_order = remove_first i s.open_order;
    } in
    let coherent : IsCoherent removed = (
      index_delete-Apart s.next_content_block_index i s.open_blocks apart,
      ap (remove_first i) order
          ∙ sym (provider_indices-index_delete s.next_content_block_index i s.open_blocks apart),
      sent,
    ) in
    let (kept, same) = sync_closed-Unseen removed coherent in
    (
      kept,
      stop-Accepts b.anthropic_idx s.next_content_block_index (client_indices s.open_blocks)
            (lookup-member i s.open_blocks h)
          ∙ ap (λ l. some (streaming_client l s.next_content_block_index))
              (sym (client_indices-index_delete s.next_content_block_index i s.open_blocks apart h))
          ∙ ap some (sym same),
    )

start_events-Accepts :
    (part : CanonicalPart) {t : BlockType} (n : ℕ) (opened : List ℕ)
    → get_block_type part ≡ some t
    → Accepts
        (streaming_client opened n)
        (start_events n (create_block_start part))
        (streaming_client (opened ++ n ∷ []) (suc n))
unfolding get_block_type Accepts client_run client_step create_block_start
start_events-Accepts (text_part t) n opened h = ground arith
start_events-Accepts (thinking_part t s) n opened h = ground arith
start_events-Accepts (tool_call_part id name a) n opened h = ground arith
start_events-Accepts (image_part t) n opened h = cc
start_events-Accepts (tool_result_part t) n opened h = cc

announce_block-Tracks :
    (i : ℕ) (part : CanonicalPart) (t : BlockType) (s : AnthropicStreamState)
    → IsCoherent s
    → get_block_type part ≡ some t
    → index_lookup i s.open_blocks ≡ none
    → Tracks s (announce_block i part t s)
unfolding IsCoherent view announce_block open_block Accepts
announce_block-Tracks i part t s (apart, order, sent) typed absent =
    let n = s.next_content_block_index in
    let b : OpenBlock = record { anthropic_idx = n; block_type = t } in
    let at_end = insert_absent i b s.open_blocks absent in
    (
      (
        subst (Apart (suc n)) (sym at_end) (snoc-Apart s.open_blocks i b apart absent),
        if_false _ _ (ap is_some absent)
            ∙ ap (λ l. l ++ i ∷ []) order
            ∙ sym (provider_indices-snoc s.open_blocks i b)
            ∙ ap provider_indices (sym at_end),
        sent,
      ),
      start_events-Accepts part n (client_indices s.open_blocks) typed
          ∙ ap (λ l. some (streaming_client l (suc n)))
              (sym (client_indices-snoc s.open_blocks i b) ∙ ap client_indices (sym at_end)),
    )

lookup-index_delete_self :
    (i : ℕ) (blocks : List (ℕ × OpenBlock)) → index_lookup i (index_delete i blocks) ≡ none
lookup-index_delete_self i blocks = ground (arith, index_lookup-index_delete i i blocks)

sync_closed-open_blocks : (s : AnthropicStreamState) → (sync_closed s).open_blocks ≡ s.open_blocks
unfolding sync_closed
sync_closed-open_blocks s =
    if_cases (λ (r : AnthropicStreamState). r.open_blocks ≡ s.open_blocks) (is_empty s.open_order) _
      _ (λ _. refl) (λ _. refl)

close_block-absent :
    (i : ℕ) (s : AnthropicStreamState) → index_lookup i (close_block i s).open_blocks ≡ none
unfolding close_block
close_block-absent i s =
    ap (index_lookup i) (
      sync_closed-open_blocks (record s {
        open_blocks = index_delete i s.open_blocks;
        open_order = remove_first i s.open_order;
      }))
    ∙ lookup-index_delete_self i s.open_blocks

pub nothing-Tracks : (s : AnthropicStreamState) → IsCoherent s → Tracks s ([], s)
unfolding Accepts client_run
nothing-Tracks s h = (h, refl)

on_part-Tracks :
    (i : ℕ) (part : CanonicalPart) (t : BlockType) (o : Option OpenBlock) (s : AnthropicStreamState)
    → IsCoherent s
    → get_block_type part ≡ some t
    → index_lookup i s.open_blocks ≡ o
    → Tracks s (on_part i part t o s)
unfolding on_part
on_part-Tracks i part t none s h typed e = announce_block-Tracks i part t s h typed e
on_part-Tracks i part t (some b) s h typed e =
    if_cases (Tracks s) (block_type_eq b.block_type t) _ _ (λ _. nothing-Tracks s h)
      (λ _.
        let closed = close_block-Tracks i s {b = b} h e in
        let opened =
          announce_block-Tracks i part t (close_block i s) closed.0 typed
            (close_block-absent i s) in
        (
          opened.0,
          Accepts-append (view s) (view (close_block i s))
              (view (announce_block i part t (close_block i s)).1)
              (content_block_stop b.anthropic_idx ∷ []) _ closed.1 opened.1,
        ))

delta_events-Accepts :
    (b : OpenBlock) (d : Option CanonicalDelta) (opened : List ℕ) (n : ℕ)
    → index_member b.anthropic_idx opened ≡ true
    → Accepts (streaming_client opened n) (delta_events b d) (streaming_client opened n)
unfolding delta_events Accepts client_run client_step
delta_events-Accepts b none opened n h = refl
delta_events-Accepts b (some (text_delta t)) opened n h = ground arith
delta_events-Accepts b (some (thinking_delta t)) opened n h = ground arith
delta_events-Accepts b (some (tool_arguments_delta t)) opened n h = ground arith
delta_events-Accepts b (some (custom_input_delta t)) opened n h = refl

routed_events-Accepts :
    (i : ℕ) (o : Option OpenBlock) (d : Option CanonicalDelta) (s : AnthropicStreamState)
    → index_lookup i s.open_blocks ≡ o
    → Accepts (view s) (routed_events o d) (view s)
unfolding routed_events view Accepts client_run
routed_events-Accepts i none d s e = refl
routed_events-Accepts i (some b) d s e =
    delta_events-Accepts b d (client_indices s.open_blocks) s.next_content_block_index
      (lookup-member i s.open_blocks e)

route_delta-Tracks :
    (i : ℕ) (d : Option CanonicalDelta) (s : AnthropicStreamState) (c : Converted)
    → Tracks s c
    → Tracks s (route_delta i d c)
unfolding route_delta
route_delta-Tracks i d s (events, s') (h, k) = (
  h,
  Accepts-append (view s) (view s') (view s') events _ k (routed_events-Accepts i _ d s' refl),
)

on_typed-Tracks :
    (i : ℕ) (part : CanonicalPart) (t : Option BlockType) (d : Option CanonicalDelta)
    (s : AnthropicStreamState)
    → IsCoherent s
    → get_block_type part ≡ t
    → Tracks s (on_typed i part t d s)
unfolding on_typed
on_typed-Tracks i part none d s h typed = nothing-Tracks s h
on_typed-Tracks i part (some t) d s h typed =
    route_delta-Tracks i d s _ (on_part-Tracks i part t _ s h typed refl)

on_content-Tracks :
    (i : ℕ) (block : Option CanonicalPart) (d : Option CanonicalDelta) (s : AnthropicStreamState)
    → IsCoherent s
    → Tracks s (on_content i block d s)
unfolding on_content
on_content-Tracks i none d s h = route_delta-Tracks i d s ([], s) (nothing-Tracks s h)
on_content-Tracks i (some part) d s h = on_typed-Tracks i part _ d s h refl

on_block_stop-Tracks :
    (i : ℕ) (o : Option OpenBlock) (s : AnthropicStreamState)
    → IsCoherent s
    → index_lookup i s.open_blocks ≡ o
    → Tracks s (on_block_stop i o s)
unfolding on_block_stop
on_block_stop-Tracks i none s h e = nothing-Tracks s h
on_block_stop-Tracks i (some b) s h e = close_block-Tracks i s h e

-- The events between the start and the end of a stream.
abbrev pub is_body : CanonicalEvent → Bool
is_body (stream_start id model) = false
is_body (content_delta i block d) = true
is_body (block_stop i) = true
is_body (stream_end r s u) = false
is_body (stream_error t m) = true

pub convert_event-Tracks :
    (e : CanonicalEvent) (s : AnthropicStreamState)
    → is_body e ≡ true
    → IsCoherent s
    → Tracks s (convert_event e s)
unfolding convert_event Accepts client_run client_step view
convert_event-Tracks (stream_start id model) s b h = cc
convert_event-Tracks (content_delta i block d) s b h =
    let (kept, same) = suppress-Unseen i block d s h in
    if_cases (Tracks s) (suppress i block d s).0 _ _ (λ _. (kept, ap some (sym same)))
      (λ _.
        let (after, accepted) = on_content-Tracks i block d (suppress i block d s).1 kept in
        (
          after,
          subst
              (λ v.
                Accepts v (on_content i block d (suppress i block d s).1).0
                  (view (on_content i block d (suppress i block d s).1).1))
              same accepted,
        ))
convert_event-Tracks (block_stop i) s b h = on_block_stop-Tracks i _ s h refl
convert_event-Tracks (stream_end r t u) s b h = cc
convert_event-Tracks (stream_error t m) s b h = (h, refl)

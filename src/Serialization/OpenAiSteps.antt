-- ===== src/Serialization/OpenAiSteps.antt =====
-- The events of a stream of chat completions, one at a time: the calls that they keep and the
-- arguments that they send.
use mathlib.Core.List.{append_assoc, append-nil}
use omnillm.Prelude.{
  is_nil, ℕ, zero, suc, ◌==◌, ◌≡◌, refl, sym, ap, subst, ◌∙◌, Bool, true, false, ◌&&◌, ◌||◌, not,
  Option, none, some, List, [], ◌∷◌, ◌++◌, Text, text_eq, arith, index_lookup, index_insert,
  index_lookup-index_insert, is_some, Bool-cases, inl, inr, if_cases, if◌then◌else◌,
}
use omnillm.Serialization.Canonical.{
  text_part, image_part, thinking_part, tool_call_part, tool_result_part, CanonicalDelta,
  text_delta, thinking_delta, tool_arguments_delta, custom_input_delta, CanonicalEvent,
  stream_start, content_delta, block_stop, stream_end, stream_error, Usage,
}
use omnillm.ToolArguments.Schemas.{Json}
use omnillm.Serialization.OpenAiStream.{
  arguments, finish, Sent, chunk, done, error_chunk, OpenAiStreamState, id_or_empty, index_before,
  index_for, delta_chunks, is_empty_piece, on_tool_call, on_block_delta, usage_chunks,
  convert_event_to_openai, convert_stop_reason_to_openai,
}
use omnillm.Serialization.OpenAiClient.{
  piece_of, pieces_at, choice_arguments, sent_arguments, arguments_at, has_call, is_orderly_part,
  is_orderly, IsValid, Keeps, Steps,
}

pub arguments_at-append :
    (n : ℕ) (xs ys : List Sent) → arguments_at n (xs ++ ys) ≡ arguments_at n xs ++ arguments_at n ys
unfolding arguments_at
arguments_at-append n [] ys = refl
arguments_at-append n (x ∷ xs) ys =
    ap (λ l. sent_arguments n x ++ l) (arguments_at-append n xs ys)
    ∙ sym (append_assoc (sent_arguments n x) (arguments_at n xs) (arguments_at n ys))

-- A step that leaves the state and sends no arguments.
pub quiet-Steps :
    (i : ℕ) (s : OpenAiStreamState) (out : List Sent)
    → IsValid s
    → ((n : ℕ) → arguments_at n out ≡ [])
    → Steps i [] s (out, s)
quiet-Steps i s out v h = ((λ j n e. e), v, (λ final n k w e. h n))

same_branch : (b : Bool) → ◌≡◌ {A = Text} [] (if b then [] else [])
same_branch true = refl
same_branch false = refl

-- Different calls have different indices.
same_call :
    (i j n m : ℕ) (final : OpenAiStreamState)
    → IsValid final
    → index_lookup j final.tool_call_index_by_block ≡ some m
    → index_lookup i final.tool_call_index_by_block ≡ some n
    → (m == n) ≡ (j == i)
same_call i j n m final (below, apart) e f = ground (arith, apart j i n)

-- A piece of arguments for a block goes to the call of the block.
piece-sent :
    (i j n : ℕ) (t : Text) (s final : OpenAiStreamState) (o : Option ℕ)
    → index_lookup j s.tool_call_index_by_block ≡ o
    → (is_some o || is_nil t) ≡ true
    → Keeps s final
    → IsValid final
    → index_lookup i final.tool_call_index_by_block ≡ some n
    → choice_arguments n (arguments (index_for o s.tool_call_index) t) ≡ (if j == i then t else [])
piece-sent i j n t s final (some m) e h k w f =
    ap (λ b. if b then t else []) (same_call i j n m final w (k j m e) f)
piece-sent i j n [] s final none e h k w f = silent s.tool_call_index ∙ same_branch (j == i)
  where
    silent : (next : ℕ) → choice_arguments n (arguments (index_before next) []) ≡ []
    silent zero = refl
    silent (suc m) = sym (same_branch (m == n))
piece-sent i j n (c ∷ t) s final none e h k w f = cc

-- A delta for a block, which has a call if the delta has arguments.
delta_chunks-Steps :
    (i j : ℕ) (delta : Option CanonicalDelta) (s : OpenAiStreamState)
    → IsValid s
    → (has_call j s || is_nil (piece_of delta)) ≡ true
    → Steps i (if j == i then piece_of delta else []) s (delta_chunks j delta s, s)
unfolding delta_chunks arguments_at
delta_chunks-Steps i j none s v h = ((λ j n e. e), v, (λ final n k w e. same_branch (j == i)))
delta_chunks-Steps i j (some (text_delta t)) s v h =
    ((λ j n e. e), v, (λ final n k w e. same_branch (j == i)))
delta_chunks-Steps i j (some (thinking_delta t)) s v h =
    ((λ j n e. e), v, (λ final n k w e. same_branch (j == i)))
delta_chunks-Steps i j (some (custom_input_delta t)) s v h =
    ((λ j n e. e), v, (λ final n k w e. same_branch (j == i)))
delta_chunks-Steps i j (some (tool_arguments_delta t)) s v h = (
  (λ j n e. e),
  v,
  (λ final n k w e.
      append-nil _
      ∙ piece-sent i j n t s final (index_lookup j s.tool_call_index_by_block) refl h k w e),
)

-- The state with one more call.
abbrev pub announced : ℕ → Text → OpenAiStreamState → OpenAiStreamState
announced j id s = record s {
  tool_call_index = suc s.tool_call_index;
  tool_call_index_by_block = index_insert j s.tool_call_index s.tool_call_index_by_block;
  tool_call_id_by_block = index_insert j id s.tool_call_id_by_block;
}

announced-IsValid :
    (j : ℕ) (id : Text) (s : OpenAiStreamState) → IsValid s → IsValid (announced j id s)
announced-IsValid j id s (below, apart) = (
  (λ i n e. ground (
    arith,
    index_lookup-index_insert j i s.tool_call_index s.tool_call_index_by_block,
    below i n,
  )),
  (λ i k n e f. ground (
    arith,
    index_lookup-index_insert j i s.tool_call_index s.tool_call_index_by_block,
    index_lookup-index_insert j k s.tool_call_index s.tool_call_index_by_block,
    below i n,
    below k n,
    apart i k n,
  )),
)

announced-Keeps :
    (j : ℕ) (id : Text) (s : OpenAiStreamState) → has_call j s ≡ false → Keeps s (announced j id s)
announced-Keeps j id s h i n e =
    ground (arith, index_lookup-index_insert j i s.tool_call_index s.tool_call_index_by_block)

nil_eq : (t : Text) → is_nil t ≡ true → t ≡ []
nil_eq [] h = refl
nil_eq (c ∷ t) h = cc

is_empty_piece-nil :
    (delta : Option CanonicalDelta) → is_empty_piece delta ≡ true → piece_of delta ≡ []
is_empty_piece-nil none h = refl
is_empty_piece-nil (some (tool_arguments_delta [])) h = refl
is_empty_piece-nil (some (tool_arguments_delta (c ∷ t))) h = cc
is_empty_piece-nil (some (text_delta t)) h = refl
is_empty_piece-nil (some (thinking_delta t)) h = refl
is_empty_piece-nil (some (custom_input_delta t)) h = refl

again_has_call :
    (known has nil : Bool)
    → (if known then has else not has && nil) ≡ true
    → known ≡ true
    → (has || nil) ≡ true
again_has_call true true nil h k = refl
again_has_call true false nil h k = cc
again_has_call false has nil h k = cc

fresh_has_none :
    (known has nil : Bool)
    → (if known then has else not has && nil) ≡ true
    → known ≡ false
    → (has ≡ false) × (nil ≡ true)
fresh_has_none true has nil h k = cc
fresh_has_none false true nil h k = cc
fresh_has_none false false nil h k = (refl, h)

on_tool_call-Steps :
    (i j : ℕ) (id name : Text) (args : List (Text × Json)) (delta : Option CanonicalDelta)
    (s : OpenAiStreamState)
    → IsValid s
    → is_orderly_part j (some (tool_call_part id name args)) delta s ≡ true
    → Steps i (if j == i then piece_of delta else []) s (on_tool_call j id name delta s)
unfolding on_tool_call is_orderly_part arguments_at
on_tool_call-Steps i j id name args delta s v h =
    if_cases (Steps i (if j == i then piece_of delta else []) s)
      (text_eq (id_or_empty (index_lookup j s.tool_call_id_by_block)) id) _ _
      (λ y.
        if_cases (λ out. Steps i (if j == i then piece_of delta else []) s (out, s))
          (is_empty_piece delta) [] (delta_chunks j delta s)
          (λ m.
            subst (λ t. Steps i t s ([], s))
              (same_branch (j == i)
                ∙ ap (λ t. if j == i then t else []) (sym (is_empty_piece-nil delta m)))
              (quiet-Steps i s [] v (λ n. refl)))
          (λ m. delta_chunks-Steps i j delta s v (again y)))
      (λ x. (
        announced-Keeps j id s (fresh x).0,
        announced-IsValid j id s v,
        (λ final n k w e.
            same_branch (j == i)
            ∙ ap (λ t. if j == i then t else []) (sym (nil_eq (piece_of delta) (fresh x).1))),
      ))
  where
    again :
        text_eq (id_or_empty (index_lookup j s.tool_call_id_by_block)) id ≡ true
        → (has_call j s || is_nil (piece_of delta)) ≡ true
    again y = again_has_call _ (has_call j s) (is_nil (piece_of delta)) h y

    fresh :
        text_eq (id_or_empty (index_lookup j s.tool_call_id_by_block)) id ≡ false
        → (has_call j s ≡ false) × (is_nil (piece_of delta) ≡ true)
    fresh x = fresh_has_none _ (has_call j s) (is_nil (piece_of delta)) h x

-- The arguments that an event has for a block.
abbrev pub event_piece : ℕ → CanonicalEvent → Text
event_piece i (content_delta j block delta) = if j == i then piece_of delta else []
event_piece i (stream_start id model) = []
event_piece i (block_stop j) = []
event_piece i (stream_end reason stopped_at usage) = []
event_piece i (stream_error type message) = []

end-silent :
    (n : ℕ) (s : OpenAiStreamState) (reason : Text) (usage : Option Usage)
    → arguments_at n (chunk s.id s.model (finish reason) ∷ (usage_chunks s usage ++ done ∷ [])) ≡ []
unfolding arguments_at
end-silent n s reason none = refl
end-silent n s reason (some u) = refl

pub convert_event-Steps :
    (i : ℕ) (e : CanonicalEvent) (s : OpenAiStreamState)
    → IsValid s
    → is_orderly e s ≡ true
    → Steps i (event_piece i e) s (convert_event_to_openai e s)
unfolding convert_event_to_openai on_block_delta is_orderly is_orderly_part arguments_at
convert_event-Steps i (stream_start id model) s v h = cc
convert_event-Steps i (content_delta j (some (tool_call_part id name args)) delta) s v h =
    on_tool_call-Steps i j id name args delta s v h
convert_event-Steps i (content_delta j none delta) s v h = delta_chunks-Steps i j delta s v h
convert_event-Steps i (content_delta j (some (text_part t)) delta) s v h =
    delta_chunks-Steps i j delta s v h
convert_event-Steps i (content_delta j (some (image_part t)) delta) s v h =
    delta_chunks-Steps i j delta s v h
convert_event-Steps i (content_delta j (some (thinking_part t g)) delta) s v h =
    delta_chunks-Steps i j delta s v h
convert_event-Steps i (content_delta j (some (tool_result_part t)) delta) s v h =
    delta_chunks-Steps i j delta s v h
convert_event-Steps i (block_stop j) s v h = quiet-Steps i s [] v (λ n. refl)
convert_event-Steps i (stream_end reason stopped_at usage) s v h =
    quiet-Steps i s (convert_event_to_openai (stream_end reason stopped_at usage) s).0 v
      (λ n. end-silent n s (convert_stop_reason_to_openai reason) usage)
convert_event-Steps i (stream_error type message) s v h =
    quiet-Steps i s (error_chunk type message ∷ []) v (λ n. refl)

pub pieces_at-event :
    (i : ℕ) (e : CanonicalEvent) (es : List CanonicalEvent)
    → pieces_at i (e ∷ es) ≡ event_piece i e ++ pieces_at i es
unfolding pieces_at
pieces_at-event i (stream_start id model) es = refl
pieces_at-event i (content_delta j block delta) es = elim (Bool-cases (j == i)) [
  | inl y ↦ rw y refl
  | inr x ↦ rw x refl
]
pieces_at-event i (block_stop j) es = refl
pieces_at-event i (stream_end reason stopped_at usage) es = refl
pieces_at-event i (stream_error type message) es = refl

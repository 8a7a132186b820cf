-- ===== src/ResponseCache/Replay.antt =====
-- A cached response that is replayed as a stream and stored again.
use mathlib.Core.List.{append_assoc, append-nil}
use omnillm.Prelude.{
  ℕ, suc, ◌≡◌, refl, sym, ap, ◌∙◌, none, some, List, [], ◌∷◌, ◌++◌, Text, codes, text_eq, is_nil,
  Bool-cases, inl, inr, if◌then◌else◌,
}
use omnillm.ToolArguments.Schemas.{string}
use omnillm.ResponseCache.Types.{
  BlockAccum, Call, Event, Part, Response, StreamAccumulator, block_text, block_thinking, call_part,
  end_event, new_block, new_stream_accumulator, other_part, text_part, thinking_part,
}
use omnillm.ResponseCache.Accumulator.{
  Codec, add_arguments, add_custom_input, custom_kind, decode_tool_args, encode_tool_args, observe,
  observe_all, or_else, part_of_kind, parts_of, response,
}
use omnillm.ResponseCache.Synthesis.{synthesize_part, synthesize_parts, synthesize_stream}
use omnillm.ResponseCache.Blocks.{
  observe_all-append, replayed_call, replayed, with_block, closed, synthesized-text,
  synthesized-thinking, announced_block, call_block, synthesized-call,
}

abbrev part_of : Codec → BlockAccum → Part
part_of codec b = part_of_kind codec b b.kind

custom-part :
    (codec : Codec) (c : Call) (input : Text)
    → part_of codec (add_custom_input input (announced_block c (some [])))
      ≡ call_part (record c {
        kind = custom_kind;
        raw_input = some input;
        args = if is_nil input then [] else (codes "input", string input) ∷ [];
      })
custom-part codec c [] = refl
custom-part codec c (x ∷ input) = refl

arguments-part :
    (codec : Codec) (c : Call) (raw : Text)
    → part_of codec (add_arguments raw (announced_block c none))
      ≡ call_part (record c { raw_input = none; args = decode_tool_args codec raw })
unfolding decode_tool_args
arguments-part codec c [] = refl
arguments-part codec c (x ∷ raw) = refl

call_block-part :
    (codec : Codec) (c : Call)
    → part_of codec (call_block codec c) ≡ call_part (replayed_call codec c)
call_block-part codec c = elim (Bool-cases (text_eq c.kind custom_kind)) [
  | inl y ↦ rw y (custom-part codec c (or_else [] c.raw_input))
  | inr x ↦ rw x (arguments-part codec c (encode_tool_args codec c.args))
]

-- Behind the events of parts: their blocks are appended.
abbrev Replays : Codec → List Event → List Part → StreamAccumulator → Type 0
Replays codec events parts a =
    (bs : List BlockAccum) × (observe_all events (closed a)
      ≡ record a { blocks = a.blocks ++ bs; open_by_index = [] })
    × (parts_of codec bs ≡ parts)

Replays-part :
    (codec : Codec) (xs ys : List Event) (b : BlockAccum) (p : Part) (ps : List Part)
    (a : StreamAccumulator)
    → observe_all xs (closed a) ≡ with_block b a
    → part_of codec b ≡ p
    → Replays codec ys ps (with_block b a)
    → Replays codec (xs ++ ys) (p ∷ ps) a
unfolding parts_of
Replays-part codec xs ys b p ps a e q (bs, f, r) = (
  b ∷ bs,
  observe_all-append xs ys (closed a)
      ∙ ap (observe_all ys) e
      ∙ f
      ∙ ap (λ l. record a { blocks = l; open_by_index = [] }) (append_assoc a.blocks (b ∷ []) bs),
  ap (λ x. x ∷ parts_of codec bs) q ∙ ap (◌∷◌ p) r,
)

synthesize_parts-Replays :
    (codec : Codec) (i : ℕ) (ps : List Part) (a : StreamAccumulator)
    → Replays codec (synthesize_parts codec i ps) (replayed codec ps) a
unfolding synthesize_parts observe_all parts_of replayed synthesize_part
synthesize_parts-Replays codec i [] a =
    ([], ap (λ l. record a { blocks = l; open_by_index = [] }) (sym (append-nil a.blocks)), refl)
synthesize_parts-Replays codec i (text_part t ∷ ps) a =
    Replays-part codec (synthesize_part codec i (text_part t)) (synthesize_parts codec (suc i) ps)
      (record (new_block block_text []) { text = t }) (text_part t) (replayed codec ps) a
      (synthesized-text codec i t a) refl
      (synthesize_parts-Replays codec (suc i) ps
        (with_block (record (new_block block_text []) { text = t }) a))
synthesize_parts-Replays codec i (thinking_part t s ∷ ps) a =
    Replays-part codec (synthesize_part codec i (thinking_part t s))
      (synthesize_parts codec (suc i) ps)
      (record (new_block block_thinking []) { text = t; signature = s }) (thinking_part t s)
      (replayed codec ps) a (synthesized-thinking codec i t s a) refl
      (synthesize_parts-Replays codec (suc i) ps
        (with_block (record (new_block block_thinking []) { text = t; signature = s }) a))
synthesize_parts-Replays codec i (call_part c ∷ ps) a =
    Replays-part codec (synthesize_part codec i (call_part c)) (synthesize_parts codec (suc i) ps)
      (call_block codec c) (call_part (replayed_call codec c)) (replayed codec ps) a
      (synthesized-call codec i c a) (call_block-part codec c)
      (synthesize_parts-Replays codec (suc i) ps (with_block (call_block codec c) a))
synthesize_parts-Replays codec i (other_part ∷ ps) a = synthesize_parts-Replays codec (suc i) ps a

-- The accumulator behind the start and the events of the parts.
abbrev accumulated : Response → List BlockAccum → StreamAccumulator
accumulated r bs = record new_stream_accumulator { id = r.id; model = r.model; blocks = bs }

end-response :
    (codec : Codec) (r : Response) (bs : List BlockAccum)
    → response codec (observe (end_event r.stop_reason r.stop_sequence r.usage) (accumulated r bs))
      ≡ (if is_nil (parts_of codec bs)
          then none
          else some (record r { content = parts_of codec bs }))
unfolding response observe parts_of
end-response codec r [] = refl
end-response codec r (b ∷ bs) = refl

-- What is accumulated of a replay, by the code's own printing and parsing.
pub response_replayed :
    (codec : Codec) (r : Response)
    → response codec (observe_all (synthesize_stream codec r) new_stream_accumulator) ≡ (
        if is_nil (replayed codec r.content)
        then none
        else some (record r { content = replayed codec r.content }))
unfolding synthesize_stream observe_all observe
response_replayed codec r =
    let (bs, e, q) = synthesize_parts-Replays codec 0 r.content (accumulated r []) in
    ap (response codec) (
      observe_all-append (synthesize_parts codec 0 r.content)
        (end_event r.stop_reason r.stop_sequence r.usage ∷ []) (accumulated r [])
      ∙ ap (observe_all (end_event r.stop_reason r.stop_sequence r.usage ∷ [])) e)
    ∙ end-response codec r bs
    ∙ ap (λ ps. if is_nil ps then none else some (record r { content = ps })) q

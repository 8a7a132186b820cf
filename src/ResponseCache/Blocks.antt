-- ===== src/ResponseCache/Blocks.antt =====
-- The block that an accumulator makes of the events of one part.
use omnillm.Prelude.{
  ℕ, ◌≡◌, refl, ap, ◌∙◌, true, Option, none, some, List, [], ◌∷◌, ◌++◌, Text, codes, text_eq, ◌==◌,
  is_nil, length, get_elem?, index_lookup, index_insert, index_delete, arith, Bool-cases, inl, inr,
  if◌then◌else◌,
}
use omnillm.ToolArguments.Schemas.{string}
use omnillm.ResponseCache.Types.{
  BlockAccum, BlockKind, Call, Event, Part, StreamAccumulator, block_text, block_thinking,
  block_tool, call_part, kind_eq, new_block, other_part, stop_event, text_part, thinking_part,
}
use omnillm.ResponseCache.Accumulator.{
  Codec, add_arguments, add_custom_input, add_text, announce_call, announce_signature,
  announce_text, custom_kind, decode_tool_args, encode_tool_args, modify, observe, observe_all,
  observe_part, observe_piece, open_block, open_position, open_tool_block, open_with, or_else,
  update_at,
}
use omnillm.ResponseCache.Synthesis.{synthesize_call, synthesize_part}

pub observe_all-append :
    (xs ys : List Event) (a : StreamAccumulator)
    → observe_all (xs ++ ys) a ≡ observe_all ys (observe_all xs a)
unfolding observe_all
observe_all-append [] ys a = refl
observe_all-append (e ∷ xs) ys a = observe_all-append xs ys (observe e a)

update_at-last :
    (f : BlockAccum → BlockAccum) (b : BlockAccum) (bs : List BlockAccum)
    → update_at (length bs) f (bs ++ b ∷ []) ≡ bs ++ f b ∷ []
unfolding update_at
update_at-last f b [] = refl
update_at-last f b (c ∷ bs) = ap (◌∷◌ c) (update_at-last f b bs)

get_elem?-last :
    (b : BlockAccum) (bs : List BlockAccum) → get_elem? (bs ++ b ∷ []) (length bs) ≡ some b
get_elem?-last b [] = refl
get_elem?-last b (c ∷ bs) = get_elem?-last b bs

-- A call as it comes back: its arguments are printed and parsed, and a custom call has its input.
abbrev pub replayed_call : Codec → Call → Call
replayed_call codec c =
    if text_eq c.kind custom_kind
    then record c {
      kind = custom_kind;
      raw_input = some (or_else [] c.raw_input);
      args =
          if is_nil (or_else [] c.raw_input)
          then []
          else (codes "input", string (or_else [] c.raw_input)) ∷ [];
    }
    else record c {
      raw_input = none;
      args = decode_tool_args codec (encode_tool_args codec c.args);
    }

-- The parts as they come back.
unfoldable pub replayed : Codec → List Part → List Part
replayed codec [] = []
replayed codec (text_part t ∷ ps) = text_part t ∷ replayed codec ps
replayed codec (thinking_part t s ∷ ps) = thinking_part t s ∷ replayed codec ps
replayed codec (call_part c ∷ ps) = call_part (replayed_call codec c) ∷ replayed codec ps
replayed codec (other_part ∷ ps) = replayed codec ps

-- The accumulator with a block that is open for the index alone.
abbrev with_open : ℕ → BlockAccum → StreamAccumulator → StreamAccumulator
with_open i b a = record a {
  blocks = a.blocks ++ b ∷ [];
  open_by_index = (i, length a.blocks) ∷ [];
}

abbrev pub with_block : BlockAccum → StreamAccumulator → StreamAccumulator
with_block b a = record a { blocks = a.blocks ++ b ∷ []; open_by_index = [] }

-- The accumulator with nothing open.
abbrev pub closed : StreamAccumulator → StreamAccumulator
closed a = record a { open_by_index = [] }

eq_self : (i : ℕ) → (i == i) ≡ true
eq_self i = ground arith

open_block-again :
    (i : ℕ) (kind : BlockKind) (b : BlockAccum) (a : StreamAccumulator)
    → kind_eq b.kind kind ≡ true
    → open_block i kind (with_open i b a) ≡ (length a.blocks, with_open i b a)
unfolding open_block open_with open_position index_lookup
open_block-again i kind b a e = rw (eq_self i, get_elem?-last b a.blocks, e) refl

modify_open :
    (i : ℕ) (b : BlockAccum) (a : StreamAccumulator) (f : BlockAccum → BlockAccum)
    → modify (length a.blocks) f (with_open i b a) ≡ with_open i (f b) a
unfolding modify
modify_open i b a f = rw (update_at-last f b a.blocks) refl

stop-open :
    (i : ℕ) (b : BlockAccum) (a : StreamAccumulator)
    → observe (stop_event i) (with_open i b a) ≡ with_block b a
unfolding observe index_delete
stop-open i b a = rw (eq_self i) refl

-- The announcement of a block that is not open, and a delta for it.
open_block-new :
    (i : ℕ) (kind : BlockKind) (a : StreamAccumulator) (f : BlockAccum → BlockAccum)
    → modify (open_block i kind (closed a)).0 f (open_block i kind (closed a)).1
      ≡ with_open i (f (new_block kind [])) a
unfolding open_block open_position index_lookup open_with modify index_insert
open_block-new i kind a f = rw (update_at-last f (new_block kind []) a.blocks) refl

open_tool_block-new :
    (i : ℕ) (id name kind : Text) (a : StreamAccumulator) (f : BlockAccum → BlockAccum)
    → modify
        (open_tool_block i id name kind (closed a)).0
        f
        (open_tool_block i id name kind (closed a)).1
      ≡ with_open i (f (new_block block_tool kind)) a
unfolding open_tool_block open_position index_lookup open_with modify index_insert
open_tool_block-new i id name kind a f =
    rw (update_at-last f (new_block block_tool kind) a.blocks) refl

open_block-modify :
    (i : ℕ) (kind : BlockKind) (b : BlockAccum) (a : StreamAccumulator)
    (f : BlockAccum → BlockAccum)
    → kind_eq b.kind kind ≡ true
    → modify (open_block i kind (with_open i b a)).0 f (open_block i kind (with_open i b a)).1
      ≡ with_open i (f b) a
open_block-modify i kind b a f e =
    ap (λ x. modify x.0 f x.1) (open_block-again i kind b a e) ∙ modify_open i b a f

-- The events of a part: its block is appended, and nothing is open.
pub synthesized-text :
    (codec : Codec) (i : ℕ) (t : Text) (a : StreamAccumulator)
    → observe_all (synthesize_part codec i (text_part t)) (closed a)
      ≡ with_block (record (new_block block_text []) { text = t }) a
unfolding synthesize_part observe_all observe observe_part observe_piece kind_eq
synthesized-text codec i t a =
    ap
      (λ x.
        observe (stop_event i)
          (modify (open_block i block_text x).0 (add_text t) (open_block i block_text x).1))
      (open_block-new i block_text a (announce_text []))
    ∙ ap (observe (stop_event i))
        (open_block-modify i block_text (new_block block_text []) a (add_text t) refl)
    ∙ stop-open i (record (new_block block_text []) { text = t }) a

pub synthesized-thinking :
    (codec : Codec) (i : ℕ) (t : Text) (s : Option Text) (a : StreamAccumulator)
    → observe_all (synthesize_part codec i (thinking_part t s)) (closed a)
      ≡ with_block (record (new_block block_thinking []) { text = t; signature = s }) a
unfolding synthesize_part observe_all observe observe_part observe_piece kind_eq
synthesized-thinking codec i t none a =
    ap
      (λ x.
        observe (stop_event i)
          (modify (open_block i block_thinking x).0 (add_text t) (open_block i block_thinking x).1))
      (open_block-new i block_thinking a (announce_text []))
    ∙ ap (observe (stop_event i))
        (open_block-modify i block_thinking (new_block block_thinking []) a (add_text t) refl)
    ∙ stop-open i (record (new_block block_thinking []) { text = t }) a
synthesized-thinking codec i t (some g) a =
    ap
      (λ x.
        observe (stop_event i)
          (modify (open_block i block_thinking x).0 (add_text t) (open_block i block_thinking x).1))
      (open_block-new i block_thinking a (λ b. announce_signature (some g) (announce_text [] b)))
    ∙ ap (observe (stop_event i)) (
        open_block-modify i block_thinking
          (record (new_block block_thinking []) { signature = some g }) a (add_text t) refl)
    ∙ stop-open i (record (new_block block_thinking []) { text = t; signature = some g }) a

-- The block of a call, behind its announcement.
abbrev pub announced_block : Call → Option Text → BlockAccum
announced_block c raw =
    announce_call (record c { args = []; raw_input = raw }) (new_block block_tool c.kind)

abbrev pub call_block : Codec → Call → BlockAccum
call_block codec c =
    if text_eq c.kind custom_kind
    then add_custom_input (or_else [] c.raw_input) (announced_block c (some []))
    else add_arguments (encode_tool_args codec c.args) (announced_block c none)

pub synthesized-call :
    (codec : Codec) (i : ℕ) (c : Call) (a : StreamAccumulator)
    → observe_all (synthesize_part codec i (call_part c)) (closed a)
      ≡ with_block (call_block codec c) a
unfolding synthesize_part synthesize_call observe_all observe observe_part observe_piece kind_eq
synthesized-call codec i c a = elim (Bool-cases (text_eq c.kind custom_kind)) [
  | inl y ↦ rw y (
      ap
        (λ x. observe (stop_event i) (
          modify (open_block i block_tool x).0 (add_custom_input (or_else [] c.raw_input))
            (open_block i block_tool x).1))
        (open_tool_block-new i c.id c.name c.kind a
          (announce_call (record c { args = []; raw_input = some [] })))
      ∙ ap (observe (stop_event i)) (
          open_block-modify i block_tool (announced_block c (some [])) a
            (add_custom_input (or_else [] c.raw_input)) refl)
      ∙ stop-open i (add_custom_input (or_else [] c.raw_input) (announced_block c (some []))) a)
  | inr x ↦ rw x (
      ap
        (λ x. observe (stop_event i) (
          modify (open_block i block_tool x).0 (add_arguments (encode_tool_args codec c.args))
            (open_block i block_tool x).1))
        (open_tool_block-new i c.id c.name c.kind a
          (announce_call (record c { args = []; raw_input = none })))
      ∙ ap (observe (stop_event i)) (
          open_block-modify i block_tool (announced_block c none) a
            (add_arguments (encode_tool_args codec c.args)) refl)
      ∙ stop-open i (add_arguments (encode_tool_args codec c.args) (announced_block c none)) a)
]

-- ===== src/ResponseCache/Storing.antt =====
-- A stored response comes back from a replay as it was.
use omnillm.Prelude.{
  ◌≡◌, refl, sym, ap, subst, ◌∙◌, Bool, true, false, Option, none, some, List, [], ◌∷◌, Text, codes,
  text_eq, text_eq_iff, is_nil, All, Bool-cases, inl, inr, if◌then◌else◌,
}
use omnillm.ToolArguments.Schemas.{Json, string}
use omnillm.ResponseCache.Types.{
  Call, Part, Response, call_part, new_stream_accumulator, other_part, text_part, thinking_part,
}
use omnillm.ResponseCache.Accumulator.{
  Codec, custom_kind, decode_tool_args, encode_tool_args, observe_all, or_else, response,
}
use omnillm.ResponseCache.Synthesis.{synthesize_stream}
use omnillm.ResponseCache.Blocks.{replayed_call, replayed}
use omnillm.ResponseCache.Replay.{response_replayed}

-- `encoding/json` prints the arguments as a text that is not empty and parses it back, and parses
-- "{}" as no arguments.
abbrev pub IsCoded : Codec → List (Text × Json) → Type 0
IsCoded codec [] = codec.unmarshal (codes "{}") ≡ some []
IsCoded codec (a ∷ args) =
    (t : Text) × (codec.marshal (a ∷ args) ≡ some t)
    × (is_nil t ≡ false)
    × (codec.unmarshal t ≡ some (a ∷ args))

-- The arguments of a custom call hold its input, unless that is empty.
abbrev pub IsCustom : Option Text → List (Text × Json) → Type 0
IsCustom none args = ⊥
IsCustom (some []) args = args ≡ []
IsCustom (some (c ∷ input)) args = args ≡ (codes "input", string (c ∷ input)) ∷ []

-- A call as an accumulator leaves it, by whether its kind is "custom".
abbrev pub IsStoredCall : Codec → Bool → Call → Type 0
IsStoredCall codec true c = IsCustom c.raw_input c.args
IsStoredCall codec false c = (c.raw_input ≡ none) × IsCoded codec c.args

-- A part that a replay can bring back.
abbrev pub IsStored : Codec → Part → Type 0
IsStored codec (text_part t) = Unit
IsStored codec (thinking_part t s) = Unit
IsStored codec (call_part c) = IsStoredCall codec (text_eq c.kind (codes "custom")) c
IsStored codec other_part = ⊥

IsCoded-decoded :
    (codec : Codec) (args : List (Text × Json))
    → IsCoded codec args
    → decode_tool_args codec (encode_tool_args codec args) ≡ args
unfolding decode_tool_args encode_tool_args
IsCoded-decoded codec [] h = ap (or_else []) h
IsCoded-decoded codec (a ∷ args) (t, m, n, u) = rw (m, n, u) refl

IsStoredCall-replayed :
    (codec : Codec) (c : Call)
    → IsStoredCall codec (text_eq c.kind (codes "custom")) c
    → replayed_call codec c ≡ c
IsStoredCall-replayed codec c h = elim (Bool-cases (text_eq c.kind custom_kind)) [
  | inl y ↦
      custom c ((text_eq_iff c.kind custom_kind).0 y) y (subst (λ b. IsStoredCall codec b c) y h)
  | inr x ↦ plain (subst (λ b. IsStoredCall codec b c) x h) x
]
  where
    plain :
        IsStoredCall codec false c → text_eq c.kind custom_kind ≡ false → replayed_call codec c ≡ c
    plain (raw, coded) x =
        rw (x, IsCoded-decoded codec c.args coded) (ap (λ r. record c { raw_input = r }) (sym raw))

    with_input :
        (c : Call) (o : Option Text)
        → c.raw_input ≡ o
        → IsCustom o c.args
        → record c {
          raw_input = some (or_else [] o);
          args = if is_nil (or_else [] o) then [] else (codes "input", string (or_else [] o)) ∷ [];
        }
          ≡ c
    with_input c none e h = elim h [ ]
    with_input c (some []) e h = cc
    with_input c (some (x ∷ input)) e h = cc

    custom :
        (c : Call)
        → c.kind ≡ custom_kind
        → text_eq c.kind custom_kind ≡ true
        → IsCustom c.raw_input c.args
        → replayed_call codec c ≡ c
    custom c k y h = rw y (
        ap
          (λ kind. record c {
            kind = kind;
            raw_input = some (or_else [] c.raw_input);
            args =
                if is_nil (or_else [] c.raw_input)
                then []
                else (codes "input", string (or_else [] c.raw_input)) ∷ [];
          })
          (sym k)
        ∙ with_input c c.raw_input refl h)

All-replayed : (codec : Codec) (ps : List Part) → All (IsStored codec) ps → replayed codec ps ≡ ps
unfolding replayed
All-replayed codec [] h = refl
All-replayed codec (text_part t ∷ ps) (x, h) = ap (◌∷◌ (text_part t)) (All-replayed codec ps h)
All-replayed codec (thinking_part t s ∷ ps) (x, h) =
    ap (◌∷◌ (thinking_part t s)) (All-replayed codec ps h)
All-replayed codec (call_part c ∷ ps) (x, h) =
    ap (λ d. call_part d ∷ replayed codec ps) (IsStoredCall-replayed codec c x)
    ∙ ap (◌∷◌ (call_part c)) (All-replayed codec ps h)
All-replayed codec (other_part ∷ ps) (x, h) = elim x [ ]

-- A response whose parts are stored ones, at least one, comes back as it was when it is replayed as
-- a stream and accumulated again. Stored are text and thinking; a custom call whose arguments hold
-- its input, or are none if the input is empty; and any other call without raw input, whose
-- arguments `encoding/json` prints and parses back.
pub response-synthesize_stream :
    (codec : Codec) (r : Response)
    → is_nil r.content ≡ false
    → All (IsStored codec) r.content
    → response codec (observe_all (synthesize_stream codec r) new_stream_accumulator) ≡ some r
response-synthesize_stream codec r n h =
    response_replayed codec r
    ∙ ap (λ ps. if is_nil ps then none else some (record r { content = ps }))
        (All-replayed codec r.content h)
    ∙ ap (λ (b : Bool). if b then none else some r) n

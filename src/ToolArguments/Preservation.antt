-- ===== src/ToolArguments/Preservation.antt =====
-- What is sent of the pieces of one call's arguments when the buffers are flushed.
use mathlib.Core.List.{append_assoc, append-nil}
use omnillm.Prelude.{
  index_lookup-index_delete, index_lookup, index_delete, ℕ, zero, suc, ◌≡◌, refl, ap, sym, ◌∙◌,
  Bool, true, false, Option, none, some, List, [], ◌∷◌, ◌++◌, Text, Option-cases, Bool-cases, inl,
  inr, arith, length, if_true, if_false, ◌==◌, if◌then◌else◌,
}
use omnillm.ToolArguments.Buffers.{
  tool_arguments, StreamEvent, content_delta, StreamBuffer, StreamState, Normalizer, flush,
  flush_events, flush_rounds, flush_all, select_first, complete_arguments,
}
use omnillm.ToolArguments.Flushing.{flush_all-empty}

-- The pieces of arguments at one index, joined.
unfoldable pub arguments_in : ℕ → StreamEvent → Text
arguments_in i (content_delta j block (some (tool_arguments t))) = if j == i then t else []
arguments_in i _ = []

unfoldable pub arguments_of : ℕ → List StreamEvent → Text
unfolding arguments_in
arguments_of i [] = []
arguments_of i (e ∷ events) = arguments_in i e ++ arguments_of i events

arguments_of-append :
    (i : ℕ) (xs ys : List StreamEvent)
    → arguments_of i (xs ++ ys) ≡ arguments_of i xs ++ arguments_of i ys
unfolding arguments_of
arguments_of-append i [] ys = refl
arguments_of-append i (e ∷ xs) ys =
    ap (λ l. arguments_in i e ++ l) (arguments_of-append i xs ys)
    ∙ sym (append_assoc (arguments_in i e) (arguments_of i xs) (arguments_of i ys))

-- The arguments that a buffer holds back.
unfoldable pub held : Option StreamBuffer → Text
held none = []
held (some b) = if b.saw_delta then b.arguments else []

-- Nothing is normalised: what is sent for a buffer is what it holds.
unfoldable pub IsPlain : Normalizer → Type 0
IsPlain n = (b : StreamBuffer) → complete_arguments n b ≡ b.arguments

flush_events-held :
    (n : Normalizer) (j i : ℕ) (o : Option StreamBuffer)
    → IsPlain n
    → arguments_of i (flush_events n j o) ≡ (if j == i then held o else [])
unfolding IsPlain flush_events arguments_of arguments_in held
flush_events-held n j i none plain = ground arith
flush_events-held n j i (some b) plain = elim (Bool-cases b.saw_delta) [
  | inl e ↦
      ap
        (λ (saw : Bool). arguments_of i (
          if saw
          then content_delta j none (some (tool_arguments (complete_arguments n b))) ∷ []
          else []))
        e
      ∙ append-nil _
      ∙ ap (λ t. if j == i then t else []) (plain b ∙ sym (if_true b.arguments [] e))
  | inr e ↦
      ap
        (λ (saw : Bool). arguments_of i (
          if saw
          then content_delta j none (some (tool_arguments (complete_arguments n b))) ∷ []
          else []))
        e
      ∙ sym (if_same (j == i))
      ∙ ap (λ t. if j == i then t else []) (sym (if_false b.arguments [] e))
]
  where
    if_same : (c : Bool) → ◌≡◌ {A = Text} (if c then [] else []) []
    if_same true = refl
    if_same false = refl

same_index : (j i : ℕ) → (j == i) ≡ true → j ≡ i
same_index j i h = ground arith

-- What an index holds goes out when it is flushed.
split_held :
    (c : Bool) (o o' : Option StreamBuffer)
    → (c ≡ true → o' ≡ o)
    → (if c then held o' else []) ++ held (if c then none else o) ≡ held o
unfolding held
split_held true o o' e = append-nil (held o') ∙ ap held (e refl)
split_held false o o' e = refl

flush-held :
    (n : Normalizer) (j i : ℕ) (s : StreamState)
    → IsPlain n
    → arguments_of i (flush n j s).0 ++ held (index_lookup i (flush n j s).1.buffers)
      ≡ held (index_lookup i s.buffers)
unfolding flush
flush-held n j i s plain =
    ap (λ l. l ++ held (index_lookup i (index_delete j s.buffers)))
      (flush_events-held n j i (index_lookup j s.buffers) plain)
    ∙ ap (λ o. (if j == i then held (index_lookup j s.buffers) else []) ++ held o)
        (index_lookup-index_delete j i s.buffers)
    ∙ split_held (j == i) (index_lookup i s.buffers) (index_lookup j s.buffers)
        (λ e. ap (λ k. index_lookup k s.buffers) (same_index j i e))

flush_rounds-held :
    (fuel : ℕ) (n : Normalizer) (i : ℕ) (s : StreamState)
    → IsPlain n
    → arguments_of i (flush_rounds fuel n s).0
        ++ held (index_lookup i (flush_rounds fuel n s).1.buffers)
      ≡ held (index_lookup i s.buffers)
unfolding flush_rounds arguments_of
flush_rounds-held zero n i s plain = refl
flush_rounds-held (suc fuel) n i s plain = elim (Option-cases (select_first none s.buffers)) [
  | inl e ↦ rw (e, flush_rounds) refl
  | inr ((j, o), e) ↦
      rw (e, flush_rounds)
        (ap (λ l. l ++ held (index_lookup i (flush_rounds fuel n (flush n j s).1).1.buffers))
            (arguments_of-append i (flush n j s).0 (flush_rounds fuel n (flush n j s).1).0)
          ∙ append_assoc (arguments_of i (flush n j s).0) _ _
          ∙ ap (λ l. arguments_of i (flush n j s).0 ++ l)
              (flush_rounds-held fuel n i (flush n j s).1 plain)
          ∙ flush-held n j i s plain)
]

-- Where nothing is to be normalised, flushing everything sends, for each index, exactly the
-- arguments that its buffer holds.
pub flush_all-held :
    (n : Normalizer) (i : ℕ) (s : StreamState)
    → IsPlain n
    → arguments_of i (flush_all n s).0 ≡ held (index_lookup i s.buffers)
unfolding flush_all held index_lookup
flush_all-held n i s plain =
    sym (append-nil (arguments_of i (flush_all n s).0))
    ∙ ap (λ bs. arguments_of i (flush_all n s).0 ++ held (index_lookup i bs))
        (sym (flush_all-empty n s))
    ∙ flush_rounds-held (length s.buffers) n i s plain

-- ===== src/ToolArguments/Flushing.antt =====
-- `flushAll` ends, and leaves nothing buffered.
use omnillm.Prelude.{
  length-index_delete-lt, index_lookup, ℕ, zero, suc, ◌≤◌, ◌≡◌, refl, ap, ◌⊎◌, inl, inr, true,
  false, Option, none, some, List, [], ◌∷◌, length, is_some, ltb, if_cases, Option-cases, arith,
}
use omnillm.ToolArguments.Buffers.{
  StreamBuffer, StreamState, Normalizer, select_first, flush, flush_rounds, flush_all,
}

-- The index is the best so far, or that of a buffer.
abbrev Selected : Option (ℕ × ℕ) → List (ℕ × StreamBuffer) → ℕ × ℕ → Type 0
Selected best buffers r = (best ≡ some r) ⊎ (is_some (index_lookup r.0 buffers) ≡ true)

keeps_looking :
    (i j : ℕ) (b : StreamBuffer) (buffers : List (ℕ × StreamBuffer))
    → is_some (index_lookup i buffers) ≡ true
    → is_some (index_lookup i ((j, b) ∷ buffers)) ≡ true
unfolding index_lookup
keeps_looking i j b buffers h = ground arith

found_first :
    (i o j p : ℕ) (b : StreamBuffer) (buffers : List (ℕ × StreamBuffer))
    → ◌≡◌ {A = Option (ℕ × ℕ)} (some (j, p)) (some (i, o))
    → is_some (index_lookup i ((j, b) ∷ buffers)) ≡ true
unfolding index_lookup
found_first i o j p b buffers e = let same : j ≡ i = cc in ground arith

select_first-Selected :
    (best : Option (ℕ × ℕ)) (buffers : List (ℕ × StreamBuffer)) (r : ℕ × ℕ)
    → select_first best buffers ≡ some r
    → Selected best buffers r
unfolding select_first
select_first-Selected best [] r h = inl h
select_first-Selected none ((j, b) ∷ buffers) (i, o) h =
    elim (select_first-Selected (some (j, b.order)) buffers (i, o) h) [
      | inl e ↦ inr (found_first i o j b.order b buffers e)
      | inr k ↦ inr (keeps_looking i j b buffers k)
    ]
select_first-Selected (some (k, p)) ((j, b) ∷ buffers) (i, o) h =
    if_cases
      (λ best.
        select_first best buffers ≡ some (i, o) → Selected (some (k, p)) ((j, b) ∷ buffers) (i, o))
      (ltb b.order p) _ _
      (λ _ h. elim (select_first-Selected (some (j, b.order)) buffers (i, o) h) [
        | inl e ↦ inr (found_first i o j b.order b buffers e)
        | inr m ↦ inr (keeps_looking i j b buffers m)
      ])
      (λ _ h. elim (select_first-Selected (some (k, p)) buffers (i, o) h) [
        | inl e ↦ inl e
        | inr m ↦ inr (keeps_looking i j b buffers m)
      ])
      h

select_first-some :
    (best : ℕ × ℕ) (buffers : List (ℕ × StreamBuffer))
    → is_some (select_first (some best) buffers) ≡ true
unfolding select_first
select_first-some best [] = refl
select_first-some (k, p) ((j, b) ∷ buffers) =
    if_cases (λ best. is_some (select_first best buffers) ≡ true) (ltb b.order p) _ _
      (λ _. select_first-some (j, b.order) buffers) (λ _. select_first-some (k, p) buffers)

select_first-none :
    (buffers : List (ℕ × StreamBuffer)) → select_first none buffers ≡ none → buffers ≡ []
unfolding select_first
select_first-none [] h = refl
select_first-none ((j, b) ∷ buffers) h =
    let present = select_first-some (j, b.order) buffers in
    let absent : is_some (select_first (some (j, b.order)) buffers) ≡ false = ap is_some h in cc

selected_buffer :
    (buffers : List (ℕ × StreamBuffer)) (i o : ℕ)
    → select_first none buffers ≡ some (i, o)
    → is_some (index_lookup i buffers) ≡ true
selected_buffer buffers i o h = elim (select_first-Selected none buffers (i, o) h) [
  | inl e ↦ cc
  | inr k ↦ k
]

flush_rounds-empty :
    (fuel : ℕ) (n : Normalizer) (s : StreamState)
    → length s.buffers ≤ fuel
    → (flush_rounds fuel n s).1.buffers ≡ []
unfolding flush_rounds flush
flush_rounds-empty zero n s h = none_left s.buffers h
  where
    none_left : (buffers : List (ℕ × StreamBuffer)) → length buffers ≤ 0 → buffers ≡ []
    none_left [] h = refl
    none_left (b ∷ buffers) h = ground arith
flush_rounds-empty (suc fuel) n s h = elim (Option-cases (select_first none s.buffers)) [
  | inl e ↦ rw (e, flush_rounds) (select_first-none s.buffers e)
  | inr ((i, o), e) ↦
      rw (e, flush_rounds)
        (flush_rounds-empty fuel n (flush n i s).1
          (omega (arith, h, length-index_delete-lt i s.buffers (selected_buffer s.buffers i o e))))
]

-- `flushAll` ends after at most as many rounds as there are buffers, whatever their orders are, and
-- nothing is buffered behind it.
pub flush_all-empty : (n : Normalizer) (s : StreamState) → (flush_all n s).1.buffers ≡ []
unfolding flush_all
flush_all-empty n s = flush_rounds-empty (length s.buffers) n s (omega arith)

-- ===== src/Serialization/Protocol.antt =====
-- What a client of the Anthropic dialect accepts: blocks are numbered from 0, a piece goes to a block
-- that is open, and a message ends when no block is.
use mathlib.Core.Path.{fun_ext}
use omnillm.Prelude.{
  ℕ, suc, Option, none, some, List, [], ◌∷◌, ◌++◌, ◌==◌, index_member, index_remove, ◌≡◌, refl, ap,
  ◌∙◌, if◌then◌else◌,
}
use omnillm.Serialization.AnthropicState.{
  AnthropicEvent, message_start, content_block_start, content_block_delta, content_block_stop,
  message_delta, message_stop, error_event, is_empty,
}

pub data Phase : Type 0 where
  waiting streaming closing finished : Phase

pub record Client : Type 0 where
  pub phase : Phase
  pub open_indices : List ℕ
  pub next : ℕ

-- A step in the phase `streaming`.
unfoldable pub streaming_step : AnthropicEvent → List ℕ → ℕ → Option Client
streaming_step (message_start id model) opened next = none
streaming_step (content_block_start i b) opened next =
    if i == next
    then some (record { phase = streaming; open_indices = opened ++ i ∷ []; next = suc next })
    else none
streaming_step (content_block_delta i d) opened next =
    if index_member i opened
    then some (record { phase = streaming; open_indices = opened; next = next })
    else none
streaming_step (content_block_stop i) opened next =
    if index_member i opened
    then some (record { phase = streaming; open_indices = index_remove i opened; next = next })
    else none
streaming_step (message_delta r s u) opened next =
    if is_empty opened
    then some (record { phase = closing; open_indices = []; next = next })
    else none
streaming_step message_stop opened next = none
streaming_step (error_event t m) opened next =
    some (record { phase = streaming; open_indices = opened; next = next })

unfoldable pub client_step : Phase → AnthropicEvent → List ℕ → ℕ → Option Client
unfolding streaming_step
client_step waiting (message_start id model) opened next =
    some (record { phase = streaming; open_indices = []; next = 0 })
client_step waiting _ opened next = none
client_step streaming e opened next = streaming_step e opened next
client_step closing message_stop opened next =
    some (record { phase = finished; open_indices = []; next = next })
client_step closing _ opened next = none
client_step finished _ opened next = none

abbrev pub and_then : Option Client → (Client → Option Client) → Option Client
and_then none f = none
and_then (some c) f = f c

-- The client over the events; `none` is an event out of place.
unfoldable pub client_run : List AnthropicEvent → Client → Option Client
unfolding client_step
client_run [] c = some c
client_run (e ∷ es) c = and_then (client_step c.phase e c.open_indices c.next) (client_run es)

abbrev pub new_client : Client
new_client = record { phase = waiting; open_indices = []; next = 0 }

and_then_assoc :
    (o : Option Client) (f g : Client → Option Client)
    → and_then o (λ c. and_then (f c) g) ≡ and_then (and_then o f) g
and_then_assoc none f g = refl
and_then_assoc (some c) f g = refl

-- A run is that of its parts.
pub client_run-append :
    (xs ys : List AnthropicEvent) (c : Client)
    → client_run (xs ++ ys) c ≡ and_then (client_run xs c) (client_run ys)
unfolding client_run
client_run-append [] ys c = refl
client_run-append (e ∷ xs) ys c =
    ap (and_then (client_step c.phase e c.open_indices c.next))
      (fun_ext (λ c'. client_run-append xs ys c'))
    ∙ and_then_assoc (client_step c.phase e c.open_indices c.next) (client_run xs) (client_run ys)

-- The client goes from one state to another over the events.
unfoldable pub Accepts : Client → List AnthropicEvent → Client → Type 0
Accepts c events c' = client_run events c ≡ some c'

pub Accepts-append :
    (c c' c'' : Client) (xs ys : List AnthropicEvent)
    → Accepts c xs c'
    → Accepts c' ys c''
    → Accepts c (xs ++ ys) c''
unfolding Accepts
Accepts-append c c' c'' xs ys h k =
    client_run-append xs ys c ∙ ap (λ o. and_then o (client_run ys)) h ∙ k

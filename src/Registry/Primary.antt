-- ===== src/Registry/Primary.antt =====
-- The primary provider is one of the active ones.
use omnillm.Prelude.{
  ◌≡◌, refl, sym, subst, true, false, Option, none, some, List, [], ◌∷◌, Text, arith, text_eq,
  text_eq_iff, lookup, insert, delete, is_some, All, lookup-insert, lookup-insert_self,
  lookup-delete, inl, inr, Option-cases, if_cases,
}
use omnillm.Registry.Defs.{
  IdSet, ProviderRegistry, register, set_active, set_active_to, add_active, add_active_to,
  remove_active, remove, remove_from, save_config_in_background, or_provider, pick_active,
  primary_without, rename,
}
use omnillm.Registry.Valid.{
  Call, register_call, set_active_call, add_active_call, remove_active_call, rename_call,
  remove_call, apply,
}

module _ {P : Type 0} (instance_id : P → Text) where
  -- Every provider is registered under its own ID.
  unfoldable pub IsKeyed : List (Text × P) → Type 0
  IsKeyed providers = (id : Text) (p : P) → lookup id providers ≡ some p → instance_id p ≡ id

  -- The provider is registered under an active ID.
  unfoldable pub IsListed : IdSet → List (Text × P) → Option P → Type 0
  IsListed active providers none = Unit
  IsListed active providers (some p) =
      (is_some (lookup (instance_id p) active) ≡ true) × (lookup (instance_id p) providers ≡ some p)

  unfoldable pub IsPrimary : ProviderRegistry P → Type 0
  IsPrimary pr = IsKeyed pr.providers × IsListed pr.active_providers pr.providers pr.active_provider

  -- A range visits members of the set.
  unfoldable pub Visits : List Text → IdSet → Type 0
  Visits ranged active = All (λ id. is_some (lookup id active) ≡ true) ranged

  delete-IsKeyed :
      (k : Text) (providers : List (Text × P)) → IsKeyed providers → IsKeyed (delete k providers)
  unfolding IsKeyed
  delete-IsKeyed k providers h id p e = h id p (ground (arith, lookup-delete k id providers))

  pick_active-IsListed :
      (ranged : List Text) (active : IdSet) (providers : List (Text × P))
      → IsKeyed providers
      → Visits ranged active
      → IsListed active providers (pick_active ranged providers)
  unfolding IsListed Visits pick_active IsKeyed
  pick_active-IsListed [] active providers keyed v = tt
  pick_active-IsListed (id ∷ ids) active providers keyed (there, v) =
      elim (Option-cases (lookup id providers)) [
        | inl e ↦ rw (e, pick_active) (pick_active-IsListed ids active providers keyed v)
        | inr (p, e) ↦
            rw (e, pick_active)
              (subst (λ i. (is_some (lookup i active) ≡ true) × (lookup i providers ≡ some p))
                (sym (keyed id p e)) (there, e))
      ]

  delete_other :
      (id : Text) (active : IdSet) (providers : List (Text × P)) (p : P)
      → text_eq (instance_id p) id ≡ false
      → IsListed active providers (some p)
      → IsListed (delete id active) providers (some p)
        × IsListed (delete id active) (delete id providers) (some p)
  unfolding IsListed
  delete_other id active providers p ne (on, listed) =
      let other : text_eq id (instance_id p) ≡ false =
        ground (arith, text_eq_iff id (instance_id p), text_eq_iff (instance_id p) id) in
      let on' : is_some (lookup (instance_id p) (delete id active)) ≡ true =
        ground (arith, lookup-delete id (instance_id p) active) in
      ((on', listed), (on', ground (arith, lookup-delete id (instance_id p) providers)))

  primary_without-IsListed :
      (ranged : List Text) (id : Text) (active : IdSet) (providers : List (Text × P)) (o : Option P)
      → IsKeyed providers
      → Visits ranged (delete id active)
      → IsListed active providers o
      → IsListed (delete id active) providers (primary_without instance_id ranged id providers o)
        × IsListed
            (delete id active)
            (delete id providers)
            (primary_without instance_id ranged id (delete id providers) o)
  unfolding primary_without IsListed
  primary_without-IsListed ranged id active providers none keyed v l = (tt, tt)
  primary_without-IsListed ranged id active providers (some p) keyed v l = (
    if_cases (IsListed (delete id active) providers) (text_eq (instance_id p) id) _ _
        (λ _. pick_active-IsListed ranged _ _ keyed v)
        (λ ne. (delete_other id active providers p ne l).0),
    if_cases (IsListed (delete id active) (delete id providers)) (text_eq (instance_id p) id) _ _
        (λ _. pick_active-IsListed ranged _ _ (delete-IsKeyed id providers keyed) v)
        (λ ne. (delete_other id active providers p ne l).1),
  )

  insert-IsKeyed :
      (p : P) (providers : List (Text × P))
      → IsKeyed providers
      → IsKeyed (insert (instance_id p) p providers)
  unfolding IsKeyed
  insert-IsKeyed p providers h id q e =
      ground (
        arith,
        lookup-insert (instance_id p) id p providers,
        text_eq_iff (instance_id p) id,
        h id q,
      )

  insert-IsListed :
      (p : P) (active : IdSet) (providers : List (Text × P)) (o : Option P)
      → lookup (instance_id p) providers ≡ none
      → IsListed active providers o
      → IsListed active (insert (instance_id p) p providers) o
  unfolding IsListed
  insert-IsListed p active providers none fresh l = tt
  insert-IsListed p active providers (some q) fresh (on, listed) = (
    on,
    ground (
      arith,
      lookup-insert (instance_id p) (instance_id q) p providers,
      text_eq_iff (instance_id p) (instance_id q),
    ),
  )

  activate-IsListed :
      (id : Text) (active : IdSet) (providers : List (Text × P)) (o : Option P)
      → IsListed active providers o
      → IsListed (insert id tt active) providers o
  unfolding IsListed
  activate-IsListed id active providers none l = tt
  activate-IsListed id active providers (some q) (on, listed) =
      (ground (arith, lookup-insert id (instance_id q) tt active), listed)

  activated-IsListed :
      (id : Text) (p : P) (active : IdSet) (providers : List (Text × P))
      → IsKeyed providers
      → lookup id providers ≡ some p
      → IsListed (insert id tt active) providers (some p)
  unfolding IsListed IsKeyed
  activated-IsListed id p active providers keyed e =
      subst (λ i. (is_some (lookup i (insert id tt active)) ≡ true) × (lookup i providers ≡ some p))
        (sym (keyed id p e)) (ground (arith, lookup-insert_self id tt active), e)

  set_active_to-IsPrimary :
      (id : Text) (o : Option P) (pr : ProviderRegistry P)
      → lookup id pr.providers ≡ o
      → IsPrimary pr
      → IsPrimary (set_active_to id o pr).1 × IsPrimary (add_active_to id o pr).1
  unfolding IsPrimary set_active_to add_active_to save_config_in_background or_provider
  set_active_to-IsPrimary id none pr e v = (v, v)
  set_active_to-IsPrimary id (some p) pr e (keyed, l) =
      let now = activated-IsListed id p pr.active_providers pr.providers keyed e in
      ((keyed, now), (keyed, kept pr.active_provider l))
    where
      kept :
          (o : Option P)
          → IsListed pr.active_providers pr.providers o
          → IsListed (insert id tt pr.active_providers) pr.providers (or_provider o p)
      kept none l = activated-IsListed id p pr.active_providers pr.providers keyed e
      kept (some q) l = activate-IsListed id pr.active_providers pr.providers (some q) l

  remove_from-IsPrimary :
      (ranged : List Text) (id : Text) (o : Option P) (pr : ProviderRegistry P)
      → Visits ranged (delete id pr.active_providers)
      → IsPrimary pr
      → IsPrimary (remove_from instance_id ranged id o pr).1
  unfolding IsPrimary remove_from save_config_in_background
  remove_from-IsPrimary ranged id none pr v h = h
  remove_from-IsPrimary ranged id (some p) pr v (keyed, l) = (
    delete-IsKeyed id pr.providers keyed,
    (primary_without-IsListed ranged id pr.active_providers pr.providers pr.active_provider keyed v
        l).1,
  )

  -- The calls that leave every provider under its own ID: a `Register` of an ID that is free, no
  -- `Rename` that succeeds; and the ranges visit the IDs that are active.
  unfoldable pub Allowed : Call P → ProviderRegistry P → Type 0
  Allowed (register_call p save) pr = lookup (instance_id p) pr.providers ≡ none
  Allowed (set_active_call id) pr = Unit
  Allowed (add_active_call id) pr = Unit
  Allowed (remove_active_call ranged id) pr = Visits ranged (delete id pr.active_providers)
  Allowed (rename_call old new) pr = (rename old new pr).1 ≡ pr
  Allowed (remove_call ranged id) pr = Visits ranged (delete id pr.active_providers)

  -- If no ID is registered again while it is taken, no rename succeeds and the ranges visit IDs
  -- that are active, every method keeps this: each provider stands under its own ID, and the
  -- primary provider, if there is one, is registered and active.
  pub apply-IsPrimary :
      (call : Call P) (pr : ProviderRegistry P)
      → Allowed call pr
      → IsPrimary pr
      → IsPrimary (apply instance_id call pr)
  unfolding apply IsPrimary Allowed register set_active add_active remove_active rename remove
      save_config_in_background
  apply-IsPrimary (register_call p save) pr fresh (keyed, l) =
      if_cases IsPrimary save _ _
        (λ _. (
          insert-IsKeyed p pr.providers keyed,
          insert-IsListed p _ pr.providers pr.active_provider fresh l,
        ))
        (λ _. (
          insert-IsKeyed p pr.providers keyed,
          insert-IsListed p _ pr.providers pr.active_provider fresh l,
        ))
  apply-IsPrimary (set_active_call id) pr a h = (set_active_to-IsPrimary id _ pr refl h).0
  apply-IsPrimary (add_active_call id) pr a h = (set_active_to-IsPrimary id _ pr refl h).1
  apply-IsPrimary (remove_active_call ranged id) pr v (keyed, l) = (
    keyed,
    (primary_without-IsListed ranged id pr.active_providers pr.providers pr.active_provider keyed v
        l).0,
  )
  apply-IsPrimary (rename_call old new) pr same h = subst IsPrimary (sym same) h
  apply-IsPrimary (remove_call ranged id) pr v h = remove_from-IsPrimary ranged id _ pr v h

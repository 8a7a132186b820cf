-- ===== src/Registry/Valid.antt =====
-- Whatever is active is registered.
use omnillm.Prelude.{
  ◌≡◌, refl, ap, Bool, true, false, Option, none, some, List, Text, arith, text_eq, text_eq_iff,
  lookup, insert, delete, is_some, IsMap, insert-IsMap, delete-IsMap, lookup-insert, lookup-delete,
  lookup-insert_self, Bool-cases, inl, inr, if_cases,
}
use omnillm.Registry.Defs.{
  IdSet, ProviderRegistry, register, set_active, set_active_to, add_active, add_active_to,
  remove_active, rename, rename_to, rename_active, remove, remove_from, save_config_in_background,
}

-- A call of a method that changes the registry. The lists are the orders of the ranges.
pub data Call (P : Type 0) : Type 0 where
  register_call : P → Bool → Call P
  set_active_call : Text → Call P
  add_active_call : Text → Call P
  remove_active_call : List Text → Text → Call P
  rename_call : Text → Text → Call P
  remove_call : List Text → Text → Call P

unfoldable pub IsRegistered : {P : Type 0} → IdSet → List (Text × P) → Type 0
IsRegistered active providers =
    (id : Text) → is_some (lookup id active) ≡ true → is_some (lookup id providers) ≡ true

unfoldable pub IsValid : {P : Type 0} → ProviderRegistry P → Type 0
IsValid pr =
    IsMap pr.providers × IsMap pr.active_providers × IsRegistered pr.active_providers pr.providers

module _ {P : Type 0} where
  unfoldable pub apply : (P → Text) → Call P → ProviderRegistry P → ProviderRegistry P
  apply instance_id (register_call p save) pr = register instance_id p save pr
  apply instance_id (set_active_call id) pr = (set_active id pr).1
  apply instance_id (add_active_call id) pr = (add_active id pr).1
  apply instance_id (remove_active_call ranged id) pr = remove_active instance_id ranged id pr
  apply instance_id (rename_call old new) pr = (rename old new pr).1
  apply instance_id (remove_call ranged id) pr = (remove instance_id ranged id pr).1

  register-IsRegistered :
      (k : Text) (v : P) (active : IdSet) (providers : List (Text × P))
      → IsRegistered active providers
      → IsRegistered active (insert k v providers)
  unfolding IsRegistered
  register-IsRegistered k v active providers h id a =
      ground (arith, lookup-insert k id v providers, h id a)

  activate-IsRegistered :
      (k : Text) (active : IdSet) (providers : List (Text × P))
      → is_some (lookup k providers) ≡ true
      → IsRegistered active providers
      → IsRegistered (insert k tt active) providers
  unfolding IsRegistered
  activate-IsRegistered k active providers there h id a = elim (Bool-cases (text_eq k id)) [
    | inl e ↦ ground (arith, (text_eq_iff k id).0 e)
    | inr ne ↦ h id (ground (arith, lookup-insert k id tt active))
  ]

  deactivate-IsRegistered :
      (k : Text) (active : IdSet) (providers : List (Text × P))
      → IsRegistered active providers
      → IsRegistered (delete k active) providers
  unfolding IsRegistered
  deactivate-IsRegistered k active providers h id a =
      h id (ground (arith, lookup-delete k id active))

  remove-IsRegistered :
      (k : Text) (active : IdSet) (providers : List (Text × P))
      → IsRegistered active providers
      → IsRegistered (delete k active) (delete k providers)
  unfolding IsRegistered
  remove-IsRegistered k active providers h id a =
      let was : is_some (lookup id active) ≡ true = ground (arith, lookup-delete k id active) in
      ground (arith, lookup-delete k id active, lookup-delete k id providers, h id was)

  -- An ID that is not active may be dropped.
  drop-IsRegistered :
      (k : Text) (active : IdSet) (providers : List (Text × P))
      → is_some (lookup k active) ≡ false
      → IsRegistered active providers
      → IsRegistered active (delete k providers)
  unfolding IsRegistered
  drop-IsRegistered k active providers off h id a = elim (Bool-cases (text_eq k id)) [
    | inl e ↦ absurd_bool (ap (λ i. is_some (lookup i active)) ((text_eq_iff k id).0 e)) off a
    | inr ne ↦ ground (arith, lookup-delete k id providers, h id a)
  ]
    where
      absurd_bool : {b c d : Bool} → b ≡ c → b ≡ false → c ≡ true → d ≡ true
      absurd_bool e f g = cc

  rename-IsRegistered :
      (old new : Text) (v : P) (active : IdSet) (providers : List (Text × P))
      → IsRegistered active providers
      → IsRegistered (rename_active old new active) (insert new v (delete old providers))
  unfolding rename_active
  rename-IsRegistered old new v active providers h =
      if_cases (λ a. IsRegistered a (insert new v (delete old providers)))
        (is_some (lookup old active)) _ _
        (λ _.
          activate-IsRegistered new (delete old active) _
            (ground (arith, lookup-insert_self new v (delete old providers)))
            (register-IsRegistered new v _ _ (remove-IsRegistered old active providers h)))
        (λ off. register-IsRegistered new v _ _ (drop-IsRegistered old active providers off h))

  register-IsValid :
      (instance_id : P → Text) (p : P) (save : Bool) (pr : ProviderRegistry P)
      → IsValid pr
      → IsValid (register instance_id p save pr)
  unfolding IsValid register save_config_in_background
  register-IsValid instance_id p save pr (maps, sets, h) =
      let valid : IsMap (insert (instance_id p) p pr.providers)
          × IsMap pr.active_providers
          × IsRegistered pr.active_providers (insert (instance_id p) p pr.providers) =
        (
          insert-IsMap (instance_id p) p pr.providers maps,
          sets,
          register-IsRegistered (instance_id p) p pr.active_providers pr.providers h,
        ) in
      if_cases IsValid save _ _ (λ _. valid) (λ _. valid)

  set_active_to-IsValid :
      (id : Text) (o : Option P) (pr : ProviderRegistry P)
      → lookup id pr.providers ≡ o
      → IsValid pr
      → IsValid (set_active_to id o pr).1 × IsValid (add_active_to id o pr).1
  unfolding IsValid set_active_to add_active_to save_config_in_background
  set_active_to-IsValid id none pr e v = (v, v)
  set_active_to-IsValid id (some p) pr e (maps, sets, h) =
      let valid : IsMap pr.providers
          × IsMap (insert id tt pr.active_providers)
          × IsRegistered (insert id tt pr.active_providers) pr.providers =
        (
          maps,
          insert-IsMap id tt pr.active_providers sets,
          activate-IsRegistered id pr.active_providers pr.providers (ap is_some e) h,
        ) in
      (valid, valid)

  rename_to-IsValid :
      (old new : Text) (o taken : Option P) (pr : ProviderRegistry P)
      → IsValid pr
      → IsValid (rename_to old new o taken pr).1
  unfolding IsValid rename_to rename_active save_config_in_background
  rename_to-IsValid old new none taken pr v = v
  rename_to-IsValid old new (some p) (some q) pr v = v
  rename_to-IsValid old new (some p) none pr (maps, sets, h) = (
    insert-IsMap new p (delete old pr.providers) (delete-IsMap old pr.providers maps),
    if_cases IsMap (is_some (lookup old pr.active_providers)) _ _
        (λ _. insert-IsMap new tt _ (delete-IsMap old pr.active_providers sets)) (λ _. sets),
    rename-IsRegistered old new p pr.active_providers pr.providers h,
  )

  remove_from-IsValid :
      (instance_id : P → Text) (ranged : List Text) (id : Text) (o : Option P)
      (pr : ProviderRegistry P)
      → IsValid pr
      → IsValid (remove_from instance_id ranged id o pr).1
  unfolding IsValid remove_from save_config_in_background
  remove_from-IsValid instance_id ranged id none pr v = v
  remove_from-IsValid instance_id ranged id (some p) pr (maps, sets, h) = (
    delete-IsMap id pr.providers maps,
    delete-IsMap id pr.active_providers sets,
    remove-IsRegistered id pr.active_providers pr.providers h,
  )

  -- Every method that changes the registry, failing or not, keeps it valid: no ID is registered or
  -- active twice, and whatever is active is registered.
  pub apply-IsValid :
      (instance_id : P → Text) (call : Call P) (pr : ProviderRegistry P)
      → IsValid pr
      → IsValid (apply instance_id call pr)
  unfolding apply IsValid set_active add_active remove_active rename remove
      save_config_in_background
  apply-IsValid instance_id (register_call p save) pr v = register-IsValid instance_id p save pr v
  apply-IsValid instance_id (set_active_call id) pr v = (set_active_to-IsValid id _ pr refl v).0
  apply-IsValid instance_id (add_active_call id) pr v = (set_active_to-IsValid id _ pr refl v).1
  apply-IsValid instance_id (remove_active_call ranged id) pr (maps, sets, h) = (
    maps,
    delete-IsMap id pr.active_providers sets,
    deactivate-IsRegistered id pr.active_providers pr.providers h,
  )
  apply-IsValid instance_id (rename_call old new) pr v = rename_to-IsValid old new _ _ pr v
  apply-IsValid instance_id (remove_call ranged id) pr v =
      remove_from-IsValid instance_id ranged id _ pr v

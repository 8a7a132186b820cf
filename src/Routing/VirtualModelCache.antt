-- ===== src/Routing/VirtualModelCache.antt =====
-- model_resolution_cache.go: the part of `ModelResolutionCache` for virtual models, which
-- `loadVMsLocked` builds from the rows of two queries.
use omnillm.Prelude.{
  ◌≡◌, refl, ap, sym, ◌∙◌, Bool, true, false, Option, none, some, List, [], ◌∷◌, ◌++◌, Text,
  text_eq, text_eq_iff, to_lower, lookup, insert, lookup-insert, arith, if_false, if_cases,
  if◌then◌else◌,
}
use mathlib.Core.List.{append_assoc, append-nil}
use omnillm.Routing.Resolution.{VirtualModel}
use omnillm.VirtualModels.Defs.{Upstream}

-- The fields of `ModelResolutionCache` for virtual models.
pub record VirtualModelCache : Type 0 where
  pub vm_by_name : List (Text × VirtualModel)
  pub vm_upstreams : List (Text × List Upstream)
  pub vm_loaded : Bool

unfoldable pub upstreams_at : Text → List (Text × List Upstream) → List Upstream
upstreams_at id m = elim (lookup id m) [ none ↦ [] | some us ↦ us ]

-- The loop over the rows of virtual models.
unfoldable pub add_virtual_models :
    List VirtualModel → List (Text × VirtualModel) → List (Text × VirtualModel)
add_virtual_models [] m = m
add_virtual_models (r ∷ rows) m = add_virtual_models rows (insert (to_lower r.virtual_model_id) r m)

-- The loop over the rows of upstreams.
unfoldable pub add_upstreams :
    List Upstream → List (Text × List Upstream) → List (Text × List Upstream)
unfolding upstreams_at
add_upstreams [] m = m
add_upstreams (u ∷ rows) m =
    add_upstreams rows (insert u.virtual_model_id (upstreams_at u.virtual_model_id m ++ u ∷ []) m)

-- `loadVMsLocked` on what the two queries returned, `none` for an error.
unfoldable pub load_vms :
    Option (List VirtualModel) → Option (List Upstream) → VirtualModelCache → VirtualModelCache
unfolding add_virtual_models add_upstreams
load_vms (some rows) (some u_rows) c = record {
  vm_by_name = add_virtual_models rows [];
  vm_upstreams = add_upstreams u_rows [];
  vm_loaded = true;
}
load_vms (some rows) none c = c
load_vms none u_rows c = c

-- `ensureVMLoaded`
unfoldable pub ensure_vm_loaded :
    Option (List VirtualModel) → Option (List Upstream) → VirtualModelCache → VirtualModelCache
unfolding load_vms
ensure_vm_loaded rows u_rows c = if c.vm_loaded then c else load_vms rows u_rows c

-- `InvalidateVMs`
unfoldable pub invalidate_vms : VirtualModelCache → VirtualModelCache
invalidate_vms c = record c { vm_loaded = false }

-- The rows of a virtual model, in the order of the query.
unfoldable pub upstreams_of : Text → List Upstream → List Upstream
upstreams_of id [] = []
upstreams_of id (u ∷ rows) =
    let rest = upstreams_of id rows in if text_eq u.virtual_model_id id then u ∷ rest else rest

-- The last row whose ID is the name, letters' case aside.
unfoldable pub last_named : Text → List VirtualModel → Option VirtualModel → Option VirtualModel
last_named name [] found = found
last_named name (r ∷ rows) found =
    last_named name rows (if text_eq (to_lower r.virtual_model_id) name then some r else found)

upstreams_at-insert :
    (k id : Text) (us : List Upstream) (m : List (Text × List Upstream))
    → upstreams_at id (insert k us m) ≡ (if text_eq k id then us else upstreams_at id m)
unfolding upstreams_at
upstreams_at-insert k id us m = ground (arith, lookup-insert k id us m)

append_row :
    (b : Bool) (xs ys rest : List Upstream) (u : Upstream)
    → (b ≡ true → ys ≡ xs)
    → (if b then ys ++ u ∷ [] else xs) ++ rest ≡ xs ++ (if b then u ∷ rest else rest)
append_row true xs ys rest u e =
    ap (λ l. l ++ u ∷ [] ++ rest) (e refl) ∙ append_assoc xs (u ∷ []) rest
append_row false xs ys rest u e = refl

add_upstreams-upstreams_of :
    (rows : List Upstream) (m : List (Text × List Upstream)) (id : Text)
    → upstreams_at id (add_upstreams rows m) ≡ upstreams_at id m ++ upstreams_of id rows
unfolding add_upstreams upstreams_of
add_upstreams-upstreams_of [] m id = sym (append-nil (upstreams_at id m))
add_upstreams-upstreams_of (u ∷ rows) m id =
    add_upstreams-upstreams_of rows _ id
    ∙ ap (λ l. l ++ upstreams_of id rows) (upstreams_at-insert u.virtual_model_id id _ m)
    ∙ append_row (text_eq u.virtual_model_id id) (upstreams_at id m)
        (upstreams_at u.virtual_model_id m) (upstreams_of id rows) u
        (λ e. ap (λ k. upstreams_at k m) ((text_eq_iff u.virtual_model_id id).0 e))

add_virtual_models-last_named :
    (rows : List VirtualModel) (m : List (Text × VirtualModel)) (name : Text)
    → lookup name (add_virtual_models rows m) ≡ last_named name rows (lookup name m)
unfolding add_virtual_models last_named
add_virtual_models-last_named [] m name = refl
add_virtual_models-last_named (r ∷ rows) m name =
    add_virtual_models-last_named rows (insert (to_lower r.virtual_model_id) r m) name
    ∙ ap (last_named name rows) (lookup-insert (to_lower r.virtual_model_id) name r m)

-- On a cache that is not loaded, with both queries answered, the upstreams of an ID are its rows in
-- the order of the query, and a name finds the last virtual model whose ID it is, letters' case
-- aside; if a query fails, the cache stays as it was.
pub ensure_vm_loaded_lem :
    (rows : List VirtualModel) (u_rows : List Upstream) (c : VirtualModelCache) (id name : Text)
    → c.vm_loaded ≡ false
    → (upstreams_at id (ensure_vm_loaded (some rows) (some u_rows) c).vm_upstreams
        ≡ upstreams_of id u_rows)
      × (lookup (to_lower name) (ensure_vm_loaded (some rows) (some u_rows) c).vm_by_name
          ≡ last_named (to_lower name) rows none)
      × (ensure_vm_loaded (some rows) none c ≡ c)
      × (ensure_vm_loaded none (some u_rows) c ≡ c)
unfolding ensure_vm_loaded load_vms lookup upstreams_at
ensure_vm_loaded_lem rows u_rows c id name cold = (
  ap (λ (l : VirtualModelCache). upstreams_at id l.vm_upstreams) (if_false _ _ cold)
      ∙ add_upstreams-upstreams_of u_rows [] id,
  ap (λ (l : VirtualModelCache). lookup (to_lower name) l.vm_by_name) (if_false _ _ cold)
      ∙ add_virtual_models-last_named rows [] (to_lower name),
  if_cases (λ l. l ≡ c) c.vm_loaded c c (λ _. refl) (λ _. refl),
  if_cases (λ l. l ≡ c) c.vm_loaded c c (λ _. refl) (λ _. refl),
)

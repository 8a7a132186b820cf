-- ===== src/Tests/Registry.antt =====
-- Runs of the provider registry, and its theorems at two providers, each a text that is its ID.
use omnillm.Prelude.{
  ◌≡◌, refl, true, false, some, [], ◌∷◌, Text, arith, codes, lookup, delete, text_eq, text_eq_iff,
  pos,
}
use omnillm.Registry.Defs.{ProviderRegistry, remove, primary_without, pick_active, remove_from}
use omnillm.Registry.Primary
use omnillm.Registry.Primary.{IsPrimary, IsKeyed, IsListed, Visits, Allowed}
use omnillm.Registry.Saves
use omnillm.Registry.Saves.{save_config}
use omnillm.Registry.Valid
use omnillm.Registry.Valid.{Call, remove_call, IsValid, IsRegistered, apply}
use omnillm.Routing.References.{ProviderInstance}

abbrev a : Text
a = codes "alibaba-1"

abbrev c : Text
c = codes "codex"

abbrev own_id : Text → Text
own_id t = t

abbrev kind : Text → Text
kind t = codes "openai"

-- One provider, the primary and active one.
abbrev alone : ProviderRegistry Text
alone = record {
  providers = (a, a) ∷ [];
  active_provider = some a;
  active_providers = (a, tt) ∷ [];
  versions = [];
  scheduled = 0;
}

abbrev both : ProviderRegistry Text
both = record alone { providers = (a, a) ∷ (c, c) ∷ []; active_providers = (a, tt) ∷ (c, tt) ∷ [] }

remove_run : (remove own_id (c ∷ []) a both).1.active_provider ≡ some c
unfolding remove remove_from primary_without pick_active lookup delete text_eq
remove_run = refl

alone-IsValid : IsValid alone
unfolding IsValid IsRegistered lookup
alone-IsValid = ((refl, tt), (refl, tt), λ id on. ground arith)

apply-IsValid_example : IsValid (apply own_id (remove_call [] a) alone)
apply-IsValid_example = Valid.apply-IsValid own_id (remove_call [] a) alone alone-IsValid

alone-IsPrimary : IsPrimary own_id alone
unfolding IsPrimary IsKeyed IsListed lookup text_eq
alone-IsPrimary = ((λ id p e. ground (arith, text_eq_iff a id)), (refl, refl))

no_visits : Allowed own_id (remove_call [] a) alone
unfolding Allowed Visits
no_visits = tt

apply-IsPrimary_example : IsPrimary own_id (apply own_id (remove_call [] a) alone)
apply-IsPrimary_example =
    Primary.apply-IsPrimary own_id (remove_call [] a) alone no_visits alone-IsPrimary

abbrev row : ProviderInstance
row = record {
  instance_id = a;
  provider_id = codes "openai";
  name = codes "Work";
  subtitle = codes "w";
  priority = pos 2;
  activated = false;
}

lookup-save_config_example : Saves.IsSaved kind own_id true true true (some a) a (some row) (
    lookup a (
      save_config kind own_id
        (λ id. true)
        (λ id. true)
        ((a, tt) ∷ [])
        ((a, a) ∷ [])
        ((a, row) ∷ [])))
unfolding lookup text_eq
lookup-save_config_example =
    Saves.lookup-save_config kind own_id (λ id. true) (λ id. true) ((a, tt) ∷ []) ((a, a) ∷ [])
      ((a, row) ∷ []) a (refl, tt)

-- ===== src/Routing/Match.antt =====
-- `routeMatches` of pipeline.go, and what it decides.
use mathlib.Core.Logic.{◌↔◌}
use fragments_engine.Common.{
  ◌≡◌, ◌⊎◌, String, Bool, true, false, not, ◌&&◌, ◌||◌, List, [], ◌∷◌, arith, str_eq, eq_iff,
  if◌then◌else◌,
}
use fragments_engine.Delivery.Types.{Fragment}
use fragments_engine.Store.Action.{Route, FragmentEntity}

abbrev is_set : String → Bool
is_set s = not (str_eq s "")

-- One round of the loop over the entities, up to its first hit.
entity_matches : Route → FragmentEntity → Bool
entity_matches route entity =
    if is_set route.match_entity_kind && not (str_eq route.match_entity_kind entity.kind)
    then false
    else if is_set route.match_entity_value && not (str_eq route.match_entity_value entity.value)
    then false
    else true

any_entity_matches : Route → List FragmentEntity → Bool
any_entity_matches route [] = false
any_entity_matches route (entity ∷ entities) =
    let rest = any_entity_matches route entities in
    if entity_matches route entity then true else rest

unfoldable pub route_matches : Route → Fragment → List FragmentEntity → Bool
unfolding any_entity_matches entity_matches
route_matches route fragment entities =
    if is_set route.match_source && not (str_eq route.match_source fragment.source)
    then false
    else if is_set route.match_type && not (str_eq route.match_type fragment.source_type)
    then false
    else if is_set route.match_entity_kind || is_set route.match_entity_value
    then any_entity_matches route entities
    else true

-- A filter that is empty accepts all, any other only its own text.
abbrev pub Accepts : String → String → Type 0
Accepts filter text = (filter ≡ "") ⊎ (filter ≡ text)

-- Some entity has what a predicate asks.
abbrev pub Some {ℓ} : {A : Type ℓ} → (A → Type 0) → List A → Type 0
Some P [] = ⊥
Some P (x ∷ xs) = P x ⊎ Some P xs

pub record Matches (route : Route) (fragment : Fragment) (entities : List FragmentEntity)
    : Type 0 where
  pub source : Accepts route.match_source fragment.source
  pub source_type : Accepts route.match_type fragment.source_type
  pub entity :
      (route.match_entity_kind ≡ "") × (route.match_entity_value ≡ "")
      ⊎ Some
          (λ e. Accepts route.match_entity_kind e.kind × Accepts route.match_entity_value e.value)
          entities

entity_matches_iff :
    (route : Route) (e : FragmentEntity)
    → (entity_matches route e ≡ true)
      ↔ (Accepts route.match_entity_kind e.kind × Accepts route.match_entity_value e.value)
unfolding entity_matches
entity_matches_iff route e = ground (
  arith,
  eq_iff route.match_entity_kind "",
  eq_iff route.match_entity_kind e.kind,
  eq_iff route.match_entity_value "",
  eq_iff route.match_entity_value e.value,
)

any_entity_matches_iff :
    (route : Route) (entities : List FragmentEntity)
    → (any_entity_matches route entities ≡ true)
      ↔ Some
          (λ e. Accepts route.match_entity_kind e.kind × Accepts route.match_entity_value e.value)
          entities
unfolding any_entity_matches
any_entity_matches_iff route [] = ground arith
any_entity_matches_iff route (e ∷ es) =
    ground (arith, entity_matches_iff route e, any_entity_matches_iff route es)

-- A route matches a fragment exactly when its source and type filters accept the fragment's, and
-- when it has no entity filter, or one entity of the fragment is accepted by both entity filters.
pub route_matches_iff :
    (route : Route) (fragment : Fragment) (entities : List FragmentEntity)
    → (route_matches route fragment entities ≡ true) ↔ Matches route fragment entities
unfolding route_matches
route_matches_iff route fragment entities = ground (
  arith,
  eq_iff route.match_source "",
  eq_iff route.match_source fragment.source,
  eq_iff route.match_type "",
  eq_iff route.match_type fragment.source_type,
  eq_iff route.match_entity_kind "",
  eq_iff route.match_entity_value "",
  any_entity_matches_iff route entities,
)

-- ===== src/Manual/Preview.antt =====
-- The preview of a route and the routing of fragments.
use fragments_engine.Common.{◌≡◌, refl, sym, Bool, true, false, List, [], ◌∷◌, arith, eq_iff}
use mathlib.Core.Logic.{◌↔◌}
use fragments_engine.Delivery.Types.{Fragment}
use fragments_engine.Store.Action.{Route, FragmentEntity}
use fragments_engine.Routing.Match.{route_matches, route_matches_iff, Matches, Some, Accepts}
use fragments_engine.Manual.{route_matches_preview, preview_entities}

preview_entities_iff :
    (route : Route) (entities : List FragmentEntity)
    → (preview_entities route entities ≡ true)
      ↔ Some
          (λ e. Accepts route.match_entity_kind e.kind × Accepts route.match_entity_value e.value)
          entities
unfolding preview_entities
preview_entities_iff route [] = ground arith
preview_entities_iff route (e ∷ es) = ground (
  arith,
  eq_iff route.match_entity_kind "",
  eq_iff route.match_entity_kind e.kind,
  eq_iff route.match_entity_value "",
  eq_iff route.match_entity_value e.value,
  preview_entities_iff route es,
)

route_matches_preview_iff :
    (route : Route) (fragment : Fragment) (entities : List FragmentEntity)
    → (route_matches_preview route fragment entities ≡ true) ↔ Matches route fragment entities
unfolding route_matches_preview
route_matches_preview_iff route fragment entities = ground (
  arith,
  eq_iff route.match_source "",
  eq_iff route.match_source fragment.source,
  eq_iff route.match_type "",
  eq_iff route.match_type fragment.source_type,
  eq_iff route.match_entity_kind "",
  eq_iff route.match_entity_value "",
  preview_entities_iff route entities,
)

same_truth : (a b : Bool) → ((a ≡ true) → b ≡ true) → ((b ≡ true) → a ≡ true) → a ≡ b
same_truth true true f g = refl
same_truth true false f g = sym (f refl)
same_truth false true f g = g refl
same_truth false false f g = refl

-- The preview of a route takes a fragment with its entities for a match exactly when the ingest
-- pipeline does.
pub route_matches_preview-eq-route_matches :
    (route : Route) (fragment : Fragment) (entities : List FragmentEntity)
    → route_matches_preview route fragment entities ≡ route_matches route fragment entities
route_matches_preview-eq-route_matches route fragment entities =
    same_truth _ _
      (λ e.
        (route_matches_iff route fragment entities).1
          ((route_matches_preview_iff route fragment entities).0 e))
      (λ e.
        (route_matches_preview_iff route fragment entities).1
          ((route_matches_iff route fragment entities).0 e))

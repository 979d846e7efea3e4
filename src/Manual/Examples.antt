-- ===== src/Manual/Examples.antt =====
-- The two theorems at a route applied by hand and at a preview.
use fragments_engine.Common.{◌≡◌, true, some, []}
use fragments_engine.Delivery.Policy.Retry.{no_defaults}
use fragments_engine.Delivery.Examples.{outside, note}
use fragments_engine.Store.Waiting.{NothingLost}
use fragments_engine.Routing.Match.{route_matches}
use fragments_engine.Routing.Examples.{todo_route, tags, waiting_with, waiting_with-NothingLost}
use fragments_engine.Queue.Examples.{Shelf, service, shelf, shelf-NoChains, shelf_driver-IsDriver}
use fragments_engine.Manual.{RoutingService, apply_route, route_matches_preview}
use fragments_engine.Manual.Preview.{route_matches_preview-eq-route_matches}
use fragments_engine.Manual.Inbox.{apply_route-NothingLost}

abbrev routing : RoutingService Shelf
routing = record {
  outside = outside;
  trim_space = λ text. text;
  has_attachments = true;
  delivery = some service;
  cfg = no_defaults;
}

apply_route-NothingLost_example :
    NothingLost (apply_route routing "f1" "r1" (waiting_with [] shelf)).1
apply_route-NothingLost_example =
    apply_route-NothingLost routing "f1" "r1" (waiting_with [] shelf) shelf_driver-IsDriver
      shelf-NoChains (waiting_with-NothingLost [] shelf)

route_matches_preview-eq-route_matches_example :
    route_matches_preview todo_route note tags ≡ route_matches todo_route note tags
route_matches_preview-eq-route_matches_example =
    route_matches_preview-eq-route_matches todo_route note tags

-- ===== src/Delivery/Examples.antt =====
-- A destination, executors and a decoder to run deliveries with, and each theorem on them.
use fragments_engine.Common.{◌≡◌, true, false, some, [], ◌==◌, if◌then◌else◌}
use fragments_engine.Common.Int.{pos, pos_part}
use fragments_engine.Common.Error.{ok, err, plain, delivery_error}
use fragments_engine.Delivery.Types.{Destination, inbox, Fragment, DeliveryResult}
use fragments_engine.Delivery.Policy.{
  JsonDecoder, null, retry_config_for_destination, destination_retry_config,
}
use fragments_engine.Delivery.Policy.Retry.{
  IsUsable, no_defaults, destination_retry_config-IsUsable, retry_config_for_destination-IsUsable,
  retry_config_for_destination-eq-destination_retry_config,
}
use fragments_engine.Delivery.Attempt.{
  Outside, Executor, execute_destination_once, execute_destination_with_retry,
}
use fragments_engine.Delivery.Attempt.Bounds.{Ran, execute_destination_with_retry-Ran}

-- Every document says two attempts and 100 ms.
abbrev pub two_attempts : JsonDecoder
two_attempts = record {
  retry_field = λ kind document. some (record { max_attempts = pos 2; backoff_ms = pos 100 });
  parse = λ document. some null;
}

abbrev pub receipt : DeliveryResult
receipt = record { ref = "ref"; attempts = 0; published_attachments = [] }

-- The first call fails and may be tried again, later ones succeed.
abbrev pub second_time : Executor
second_time call d fragment attachments =
    if call == 0 then err (delivery_error true (plain "503")) else ok receipt

abbrev pub outside : Outside
outside = record {
  json = two_attempts;
  file = second_time;
  mcp = second_time;
  api = second_time;
  cli = second_time;
  callback = second_time;
  cancelled = λ call. false;
}

abbrev pub api_destination : Destination
api_destination = record { id = "d1"; name = "hook"; kind = "api"; config_json = "{}" }

abbrev pub note : Fragment
note = record { id = "f1"; source = "notes"; source_type = "text"; status = inbox }

execute_destination_with_retry-Ran_example :
    Ran
      (λ call. execute_destination_once outside call api_destination note [])
      (λ call. false)
      0
      0
      (pos_part (retry_config_for_destination two_attempts api_destination).max_attempts)
      (execute_destination_with_retry outside 0 api_destination note [])
execute_destination_with_retry-Ran_example =
    execute_destination_with_retry-Ran outside 0 api_destination note []

destination_retry_config-IsUsable_example :
    IsUsable (destination_retry_config two_attempts api_destination no_defaults)
destination_retry_config-IsUsable_example =
    destination_retry_config-IsUsable two_attempts api_destination no_defaults

retry_config_for_destination-IsUsable_example :
    IsUsable (retry_config_for_destination two_attempts api_destination)
retry_config_for_destination-IsUsable_example =
    retry_config_for_destination-IsUsable two_attempts api_destination

retry_config_for_destination-eq-destination_retry_config_example :
    retry_config_for_destination two_attempts api_destination
    ≡ destination_retry_config two_attempts api_destination no_defaults
retry_config_for_destination-eq-destination_retry_config_example =
    retry_config_for_destination-eq-destination_retry_config two_attempts api_destination

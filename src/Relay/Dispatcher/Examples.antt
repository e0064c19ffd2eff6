-- ===== src/Relay/Dispatcher/Examples.antt =====
-- A request and two responses; the printer of numbers is a unary one.
use aethos_linux.Base.{ℕ, ◌≡◌, refl, replicate}
use aethos_linux.Base.Text.{Text, codes}
use aethos_linux.Base.Result.{ok, err}
use aethos_linux.Relay.Dispatcher.{
  RelayFrame, new_dispatcher, register_outbound, resolve_response, unknown_correlation_id,
}
use aethos_linux.Relay.Dispatcher.Resolve.{resolve_response-register_outbound}

abbrev unary : ℕ → Text
unary n = replicate n b'1'

abbrev answer : Text → RelayFrame Text
answer payload = record {
  correlation_id =
      (register_outbound unary new_dispatcher (codes "sync") (codes "a")).1.correlation_id;
  message_type = codes "ack";
  payload = payload;
}

resolve_response-register_outbound_example :
    ((resolve_response
        (register_outbound unary new_dispatcher (codes "sync") (codes "a")).0
        (answer (codes "b"))).1
      ≡ ok (record {
        correlation_id = (answer (codes "b")).correlation_id;
        request_message_type = codes "sync";
        response_message_type = codes "ack";
        payload = codes "b";
      }))
    × ((resolve_response
          (resolve_response
            (register_outbound unary new_dispatcher (codes "sync") (codes "a")).0
            (answer (codes "b"))).0
          (answer (codes "c"))).1
        ≡ err unknown_correlation_id)
resolve_response-register_outbound_example =
    resolve_response-register_outbound unary new_dispatcher (codes "sync") (codes "a")
      (answer (codes "b")) (answer (codes "c")) refl refl

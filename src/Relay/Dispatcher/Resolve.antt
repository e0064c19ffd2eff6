-- ===== src/Relay/Dispatcher/Resolve.antt =====
-- Responses against the requests that they answer.
use aethos_linux.Base.{◌≡◌, refl, ap, ◌∙◌, ℕ, none, some, Option-cases, inl, inr}
use aethos_linux.Base.Text.{Text}
use aethos_linux.Base.Result.{ok, err}
use aethos_linux.Base.Assoc.{lookup, remove, lookup-insert_same, lookup-remove_same}
use aethos_linux.Relay.Dispatcher.{
  RelayFrame, RelayRequestDispatcher, unknown_correlation_id, register_outbound, resolve_response,
}

module _ {J : Type 0} where
  resolve_found :
      (d : RelayRequestDispatcher) (response : RelayFrame J) {request : Text}
      → lookup response.correlation_id d.pending ≡ some request
      → resolve_response d response ≡ (
        record d { pending = remove response.correlation_id d.pending },
        ok (record {
          correlation_id = response.correlation_id;
          request_message_type = request;
          response_message_type = response.message_type;
          payload = response.payload;
        }),
      )
  unfolding resolve_response
  resolve_found d response e = rw (e, resolve_response) refl

  resolve_missing :
      (d : RelayRequestDispatcher) (response : RelayFrame J)
      → lookup response.correlation_id d.pending ≡ none
      → resolve_response d response ≡ (d, err unknown_correlation_id)
  unfolding resolve_response
  resolve_missing d response e = rw (e, resolve_response) refl

  registered :
      (decimal : ℕ → Text) (d : RelayRequestDispatcher) (message_type : Text) (payload : J)
      (first : RelayFrame J)
      → first.correlation_id ≡ (register_outbound decimal d message_type payload).1.correlation_id
      → lookup first.correlation_id (register_outbound decimal d message_type payload).0.pending
        ≡ some message_type
  unfolding register_outbound
  registered decimal d message_type payload first here =
      ap (λ k. lookup k (register_outbound decimal d message_type payload).0.pending) here
      ∙ lookup-insert_same _ message_type d.pending

  resolves_again :
      (d : RelayRequestDispatcher) (first second : RelayFrame J)
      → second.correlation_id ≡ first.correlation_id
      → (resolve_response (resolve_response d first).0 second).1 ≡ err unknown_correlation_id
  resolves_again d first second same = elim (Option-cases (lookup first.correlation_id d.pending)) [
    | inl e ↦
        ap (λ o. (resolve_response o.0 second).1) (resolve_missing d first e)
        ∙ ap (λ o. o.1) (resolve_missing d second (ap (λ k. lookup k d.pending) same ∙ e))
    | inr (request, e) ↦
        ap (λ o. (resolve_response o.0 second).1) (resolve_found d first e)
        ∙ ap (λ o. o.1)
            (resolve_missing (record d { pending = remove first.correlation_id d.pending }) second
              (ap (λ k. lookup k (remove first.correlation_id d.pending)) same
                ∙ lookup-remove_same first.correlation_id d.pending))
  ]

  -- The first response to a request that was just registered is matched with the type of that
  -- request, and a second response with its identifier is refused.
  pub resolve_response-register_outbound :
      (decimal : ℕ → Text) (d : RelayRequestDispatcher) (message_type : Text) (payload : J)
      (first second : RelayFrame J)
      → first.correlation_id ≡ (register_outbound decimal d message_type payload).1.correlation_id
      → second.correlation_id ≡ first.correlation_id
      → ((resolve_response (register_outbound decimal d message_type payload).0 first).1
          ≡ ok (record {
            correlation_id = first.correlation_id;
            request_message_type = message_type;
            response_message_type = first.message_type;
            payload = first.payload;
          }))
        × ((resolve_response
              (resolve_response (register_outbound decimal d message_type payload).0 first).0
              second).1
            ≡ err unknown_correlation_id)
  resolve_response-register_outbound decimal d message_type payload first second here same = (
    ap (λ o. o.1) (resolve_found _ first (registered decimal d message_type payload first here)),
    resolves_again _ first second same,
  )

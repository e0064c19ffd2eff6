-- ===== src/Relay/Dispatcher.antt =====
-- `RelayRequestDispatcher`, src/relay/client.rs. A payload, a JSON value that is passed on, is of a
-- type that is a parameter; the decimal printer of numbers is an argument.
pub mod Resolve
mod Examples
use aethos_linux.Base.{ℕ, ◌+◌, List, [], ◌∷◌, ◌++◌, Option, none, some, saturating_add, length}
use aethos_linux.Base.Text.{Text, codes}
use aethos_linux.Base.Result.{Result, ok, err}
use aethos_linux.Base.Assoc.{lookup, insert, remove}

pub record RelayFrame (J : Type 0) : Type 0 where
  pub correlation_id : Text
  pub message_type : Text
  pub payload : J

pub record DispatchedResponse (J : Type 0) : Type 0 where
  pub correlation_id : Text
  pub request_message_type : Text
  pub response_message_type : Text
  pub payload : J

pub data DispatcherError : Type 0 where
  unknown_correlation_id : DispatcherError

pub record RelayRequestDispatcher : Type 0 where
  pub next_id : ℕ
  pub pending : List (Text × Text)

abbrev pub new_dispatcher : RelayRequestDispatcher
new_dispatcher = record { next_id = 0; pending = [] }

unfoldable pub correlation_of : (ℕ → Text) → ℕ → Text
correlation_of decimal next_id = codes "linux-" ++ decimal next_id

module _ {J : Type 0} where
  unfoldable pub register_outbound :
      (ℕ → Text) → RelayRequestDispatcher → Text → J → RelayRequestDispatcher × RelayFrame J
  unfolding correlation_of insert saturating_add
  register_outbound decimal self message_type payload =
      let next_id = saturating_add self.next_id 1 in
      let correlation_id = correlation_of decimal next_id in
      (
        record { next_id = next_id; pending = insert correlation_id message_type self.pending },
        record { correlation_id = correlation_id; message_type = message_type; payload = payload },
      )

  -- `pending.remove` returns what it removes.
  unfoldable pub resolve_response :
      RelayRequestDispatcher
      → RelayFrame J
      → RelayRequestDispatcher × Result DispatcherError (DispatchedResponse J)
  unfolding lookup remove
  resolve_response self response = elim (lookup response.correlation_id self.pending) [
    | none ↦ (self, err unknown_correlation_id)
    | some request_message_type ↦ (
      record self { pending = remove response.correlation_id self.pending },
      ok (record {
        correlation_id = response.correlation_id;
        request_message_type = request_message_type;
        response_message_type = response.message_type;
        payload = response.payload;
      }),
    )
  ]

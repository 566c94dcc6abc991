-- ===== src/Nsq/Delivery.antt =====
-- What the handlers that nsq/nsq.go adds to a consumer answer.
use go_cook.Shared.{◌≡◌, ◌≢◌, String, some, arith, Error, panics, returns}
use go_cook.Nsq.{Library, Handler, acknowledge, message_context, handle_message}

module _ (lib : Library) where
  open lib use {World}

  -- No message is answered with an error, which would send it back to the queue.
  pub handle_message-answer :
      (topic body : String) (handler : Handler lib) (world : World) (e : Error)
      → (handle_message lib topic handler body world).0 ≢ returns (some e)
  unfolding handle_message
  handle_message-answer topic body handler world e h =
      elim (handler (message_context lib topic body) body world).0
          as (λ x. acknowledge lib x ≡ returns (some e) → ⊥) [
            | panics ↦ λ p. ground arith
            | returns _ ↦ λ p. ground arith
          ]
        h

-- ===== src/Notifications.antt =====
-- packages/notifications/src/notification-service.js. What an adapter does to the outside, `W`, is a
-- function; the results of `Promise.all` are those of the calls one after the other.
pub mod Sent
use Prim.Native.String.{◌++◌ as join_text}
use hippo_build_x.Prelude.{
  String, Bool, true, false, Option, none, some, List, [], ◌∷◌, ◌++◌, find, any, update,
  if◌then◌else◌, ◌==◌,
}
use hippo_build_x.Prelude.Effect.{Result, ok, err, Thrown}
use hippo_build_x.Provisioning.ControlPlane.{message_of}

-- What `send` returns.
pub record Delivery : Type 0 where
  pub success : Bool
  pub message_id : Option String
  pub error : Option String
  pub channel : String

module _ (P W : Type 0) where
  pub record Adapter : Type 0 where
    pub channel : String
    pub send : P → W → Result Delivery × W

abbrev pub not_sent : String → String → Delivery
not_sent channel message = record {
  success = false;
  message_id = none;
  error = some message;
  channel = channel;
}

abbrev pub caught : {W : Type 0} → String → Result Delivery × W → Delivery × W
caught channel (ok d, w) = (d, w)
caught channel (err e, w) = (not_sent channel (message_of e), w)

module _ {P W : Type 0} where
  -- `this.adapters.set(adapter.channel, adapter)`
  unfoldable pub register_adapter : Adapter P W → List (Adapter P W) → List (Adapter P W)
  register_adapter a adapters =
      if any (λ b. b.channel == a.channel) adapters
      then update (λ b. b.channel == a.channel) (λ b. a) adapters
      else adapters ++ a ∷ []

  abbrev pub through : String → P → Option (Adapter P W) → W → Delivery × W
  through channel payload none w =
      (not_sent channel (join_text "No adapter registered for channel: " channel), w)
  through channel payload (some a) w = caught channel (a.send payload w)

  unfoldable pub send : List (Adapter P W) → String → P → W → Delivery × W
  send adapters channel payload w =
      through channel payload (find (λ a. a.channel == channel) adapters) w

  unfoldable pub send_multi_channel : List (Adapter P W) → List String → P → W → List Delivery × W
  send_multi_channel adapters [] payload w = ([], w)
  send_multi_channel adapters (c ∷ cs) payload w =
      let (d, w') = send adapters c payload w in
      let (ds, w'') = send_multi_channel adapters cs payload w' in (d ∷ ds, w'')

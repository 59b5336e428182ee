-- ===== src/Sdk/Mqtt.antt =====
-- What the source uses of the MQTT client: a publish, and whether it ends without an error.
use vantage_core.Prelude.{ℕ, Bool, Str}

-- A call of `client.Publish`.
pub record Publish : Type 0 where
  pub topic : Str
  pub qos : ℕ
  pub retained : Bool
  pub payload : Str

abbrev pub Client : Type 0
Client = Publish → Bool

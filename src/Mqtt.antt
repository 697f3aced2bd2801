-- ===== src/Mqtt.antt =====
-- src/MQTTController.cpp: the connection to the broker. The Paho client answers each call with a
-- code; 0 is MQTTCLIENT_SUCCESS.
pub mod Life
use mzntapp_cpp.Base.{ℕ, ◌≡◌, Bool, true, false, ◌==◌, if◌then◌else◌, List, [], ◌∷◌, ◌++◌, Text}
use mzntapp_cpp.Io.{Io, pure, ask, tell, ◌>>=◌, ◌>>◌}

pub data Call : Type 0 where
  -- broker address and client identifier
  creates : Text → Text → Call
  sets_callbacks : Call
  -- user name, password, keep-alive interval and clean session
  connects : Text → Text → ℕ → ℕ → Call
  subscribes : Text → ℕ → Call
  -- topic, message, quality of service
  publishes : Text → List ℕ → ℕ → Call
  -- with a timeout
  disconnects : ℕ → Call
  destroys : Call
  -- `MQTT_Callback` of the handler, `MQTTClient_freeMessage` and `MQTTClient_free` of the topic
  hands_on : Call
  frees_message : Call
  frees_topic : Call

-- The members; `connected` is the flag that the destructor looks at.
pub record Controller : Type 0 where
  pub broker_address : Text
  pub username : Text
  pub password : Text
  pub client_id : Text
  pub connected : Bool

abbrev pub new_controller : Controller
new_controller = record {
  broker_address = [];
  username = [];
  password = [];
  client_id = [];
  connected = false;
}

-- MQTTController::Connect
unfoldable pub connect : Controller → Io Call (Bool × Controller)
connect m = do
  result ← ask (connects m.username m.password 20 1)
  if result == 0 then pure (true, record m { connected = true }) else pure (false, m)

-- MQTTController::Start
unfoldable pub start : Text → Text → Text → Text → Controller → Io Call (Bool × Controller)
unfolding connect
start host client user passwd m =
    let m' = record m {
      broker_address = host;
      username = user;
      password = passwd;
      client_id = client;
    } in
    do
      created ← ask (creates host client)
      if created == 0
          then (do set ← ask sets_callbacks; if set == 0 then connect m' else pure (false, m'))
          else pure (false, m')

abbrev pub succeeded : ℕ → Bool
succeeded result = result == 0

-- MQTTController::Subscribe and both forms of Publish
unfoldable pub subscribe : Text → Io Call Bool
subscribe topic = ask (subscribes topic 0) >>= λ result. pure (succeeded result)

unfoldable pub publish : Text → List ℕ → ℕ → Io Call Bool
publish topic message qos = ask (publishes topic message qos) >>= λ result. pure (succeeded result)

-- The destructor.
unfoldable pub close : Controller → Io Call (Unit {0})
close m = (if m.connected then tell (disconnects 1000) else pure tt) >> tell destroys

-- MA_Callback: the handler's result is dropped, and 1 tells the client that the message was taken.
unfoldable pub message_arrived : Io Call ℕ
message_arrived = tell hands_on >> tell frees_message >> tell frees_topic >>= λ _. pure 1

-- ===== src/Client/Recv/Tests.antt =====
-- A run of `mqtt_tcpclient_recv` of mqtt/mqtt.c on two packets that arrive together.
use esp_mqtt.Base.{◌≡◌, refl, none, some, [], ◌∷◌, arith, replicate}
use esp_mqtt.Proto.{is_special}
use esp_mqtt.Client.{mqtt_data, tcp_send, post, World, Env, emit, build}
use esp_mqtt.Client.Tests.Data.{around, client, message, queue-Holds, conn-IsReady}
use esp_mqtt.Msg.MsgType
use esp_mqtt.Queue.Refine.{Holds}
use esp_mqtt.Queue.Spec
use esp_mqtt.Client.Recv.{dispatch}
use esp_mqtt.Client.Recv.Answers.{answer_to, answered, dispatch_answers}
use esp_mqtt.Msg.Packet.{encode_length}
use esp_mqtt.Client.Recv.{recv, respond_publish, respond}
use esp_mqtt.Client.Recv.Delivery.{IsOnline}
use esp_mqtt.Client.Recv.Publications.{Publication, segment, take_all, IsTame, AllSound}
use esp_mqtt.Client.Recv.Rounds.{recv_delivers}

-- A callback that sends what it gets on another connection.
abbrev noting : Env
noting = record around {
  deliver =
      λ cb topic n payload k w. elim payload [ none ↦ w | some bytes ↦ emit (tcp_send bytes) w ];
}

noting-IsTame : IsTame noting 4
noting-IsTame topic n none k w = refl
noting-IsTame topic n (some bytes) k w = refl

abbrev first : Publication
first = record { dup = 0; qos = 0; retain = 0; mid = 0; topic = b't' ∷ []; payload = b'x' ∷ [] }

abbrev second : Publication
second = record { dup = 1; qos = 1; retain = 0; mid = 5; topic = b't' ∷ []; payload = b'y' ∷ [] }

abbrev subscribed : World
subscribed = record { client = record (client mqtt_data 0) { data_cb = some 4 }; log = [] }

subscribed-IsOnline : IsOnline noting 4 (replicate 32 0) subscribed
subscribed-IsOnline = record {
  online = refl;
  called = refl;
  buffer = refl;
  storage = omega arith;
  sized = omega arith;
}

both-AllSound : AllSound (first ∷ second ∷ [])
both-AllSound = omega arith

recv_delivers_example :
    recv noting 2 (segment (first ∷ second ∷ [])) subscribed
    ≡ some (emit post (take_all noting 4 (replicate 32 0) (first ∷ second ∷ []) subscribed))
unfolding encode_length
recv_delivers_example =
    recv_delivers noting 4 2 (replicate 32 0) first (second ∷ []) subscribed noting-IsTame
      (omega arith) (omega arith) both-AllSound subscribed-IsOnline (omega arith)

-- Both payloads have come, the first one first.
both_noted :
    (take_all noting 4 (replicate 32 0) (first ∷ second ∷ []) subscribed).log
    ≡ tcp_send (b'y' ∷ []) ∷ tcp_send (b'x' ∷ []) ∷ []
unfolding take_all respond_publish respond build
both_noted = refl

abbrev online : World
online = record { client = client mqtt_data 0; log = [] }

dispatch_answers_example :
    Holds
      (dispatch around MsgType.pubrel 1 5 (0x62 ∷ 2 ∷ 0 ∷ 5 ∷ []) 4 online).client.msg_queue
      (answered 24 (message ∷ []) (answer_to MsgType.pubrel 1 5))
dispatch_answers_example =
    dispatch_answers around MsgType.pubrel 1 5 4 (0x62 ∷ 2 ∷ 0 ∷ 5 ∷ []) online (message ∷ [])
      conn-IsReady (omega arith) queue-Holds refl (λ e. absurd (omega arith)) (omega arith)

-- That is PUBCOMP, behind the message that was there.
pubcomp_queued :
    answered 24 (message ∷ []) (answer_to MsgType.pubrel 1 5)
    ≡ message ∷ (0x70 ∷ 2 ∷ 0 ∷ 5 ∷ []) ∷ []
unfolding Spec.push encode_length is_special
pubcomp_queued = refl

-- ===== src/Msg/MsgType.antt =====
-- `enum mqtt_message_type` of mqtt/include/mqtt_msg.h.
use esp_mqtt.Base.{ℕ}

abbrev pub connect : ℕ
connect = 1

abbrev pub connack : ℕ
connack = 2

abbrev pub publish : ℕ
publish = 3

abbrev pub puback : ℕ
puback = 4

abbrev pub pubrec : ℕ
pubrec = 5

abbrev pub pubrel : ℕ
pubrel = 6

abbrev pub pubcomp : ℕ
pubcomp = 7

abbrev pub subscribe : ℕ
subscribe = 8

abbrev pub suback : ℕ
suback = 9

abbrev pub unsubscribe : ℕ
unsubscribe = 10

abbrev pub unsuback : ℕ
unsuback = 11

abbrev pub pingreq : ℕ
pingreq = 12

abbrev pub pingresp : ℕ
pingresp = 13

abbrev pub disconnect : ℕ
disconnect = 14

-- ===== src/Msg/Kept/Builders.antt =====
-- The builders of mqtt/mqtt_msg.c keep a connection fit for the next message.
use esp_mqtt.Base.{
  ℕ, ◌≤◌, ◌≡◌, false, ◌+◌, ◌*◌, Option, none, some, [], ◌∷◌, Bytes, length, bit_and, ltb, ◌==◌,
  Bool-cases, Option-cases, inl, inr, get_or, bit_or, ◌%◌, length-set, arith,
}
use esp_mqtt.Msg.{Connection, ConnectInfo, append_string, append_message_id}
use esp_mqtt.Msg.MsgType
use esp_mqtt.Msg.Build
use esp_mqtt.Msg.Build.{
  Builder, Outcome, more, failed, ◌>>=◌, with_conn, finish, start, add_string, add_new_id,
  add_topic, check_topic, add_publish_id, add_data, add_qos, add_id, answer,
}
use esp_mqtt.Msg.Connect.{
  Protocol, v31, v311, variable_header, flags_at, or_flag, or_flag_if, add_variable_header,
  add_client_id, or_will_flags, add_will, add_optional, string_of, connect, flag_will,
  flag_will_retain, flag_clean_session, flag_username, flag_password,
}
use esp_mqtt.Msg.Kept.{
  IsLarge, IsSized, put_byte-IsSized, put_bytes-IsSized, init-IsSized, fail-IsSized, fini-IsSized,
  append_string-IsSized, append_id-IsSized,
}

room : (limit used n : ℕ) → ltb limit used ≡ false → limit ≡ n → used ≤ n
room limit used n h e = ground arith

module _ (n : ℕ) where
  -- Whether a part goes on or fails, the connection is fit.
  abbrev AllReady : Outcome → Type 0
  AllReady (more b) = IsSized n b.conn
  AllReady (failed b) = IsSized n b.conn

  bind-AllReady :
      (o : Outcome) (f : Builder → Outcome)
      → AllReady o
      → ((b : Builder) → IsSized n b.conn → AllReady (f b))
      → AllReady (o >>= f)
  bind-AllReady (more b) f r step = step b r
  bind-AllReady (failed b) f r step = r

  finish-AllReady :
      (o : Outcome) (type dup qos retain : ℕ)
      → AllReady o
      → IsSized n (finish o type dup qos retain).conn
  unfolding finish
  finish-AllReady (more b) type dup qos retain r = fini-IsSized n b.conn r type dup qos retain
  finish-AllReady (failed b) type dup qos retain r = fail-IsSized n b.conn r

  string-AllReady : (s : Bytes) (b : Builder) → IsSized n b.conn → AllReady (add_string s b)
  unfolding add_string
  string-AllReady s b r =
      let kept = append_string-IsSized n b.conn r s (length s) in
      elim (Option-cases (append_string b.conn s (length s)).0) [
        | inl e ↦ rw (e, add_string) kept
        | inr (n, e) ↦ rw (e, add_string) kept
      ]

  new_id-AllReady : (b : Builder) → IsSized n b.conn → AllReady (add_new_id b)
  unfolding add_new_id
  new_id-AllReady b r =
      let kept = append_id-IsSized n b.conn r 0 in
      elim (Bool-cases ((append_message_id b.conn 0).0 == 0)) [
        | inl e ↦ rw e kept
        | inr e ↦ rw e kept
      ]

  topic-AllReady : (t : Option Bytes) (b : Builder) → IsSized n b.conn → AllReady (add_topic t b)
  unfolding add_topic
  topic-AllReady none b r = r
  topic-AllReady (some []) b r = r
  topic-AllReady (some (t ∷ ts)) b r = string-AllReady (t ∷ ts) b r

  check-AllReady : (t : Option Bytes) (b : Builder) → IsSized n b.conn → AllReady (check_topic t b)
  unfolding check_topic
  check-AllReady none b r = r
  check-AllReady (some []) b r = r
  check-AllReady (some (t ∷ ts)) b r = r

  publish_id-AllReady : (qos : ℕ) (b : Builder) → IsSized n b.conn → AllReady (add_publish_id qos b)
  unfolding add_publish_id
  publish_id-AllReady qos b r = elim (Bool-cases (ltb 0 qos)) [
    | inl e ↦ rw e (new_id-AllReady b r)
    | inr e ↦ rw e r
  ]

  data-AllReady : (p : Bytes) (b : Builder) → IsSized n b.conn → AllReady (add_data p b)
  unfolding add_data
  data-AllReady p b r =
      elim (Bool-cases (ltb b.conn.buffer_length (b.conn.message.length + length p))) [
        | inl e ↦ rw e r
        | inr e ↦ rw e (put_bytes-IsSized n b.conn r p (ground (arith, r.1)))
      ]

  qos-AllReady : (q : ℕ) (b : Builder) → IsSized n b.conn → AllReady (add_qos q b)
  unfolding add_qos
  qos-AllReady q b r = elim (Bool-cases (ltb b.conn.buffer_length (b.conn.message.length + 1))) [
    | inl e ↦ rw e r
    | inr e ↦ rw e (put_byte-IsSized n b.conn r q (ground (arith, r.1)))
  ]

  id-AllReady : (mid : ℕ) (b : Builder) → IsSized n b.conn → AllReady (add_id mid b)
  unfolding add_id
  id-AllReady mid b r =
      let kept = append_id-IsSized n b.conn r mid in
      elim (Bool-cases ((append_message_id b.conn mid).0 == 0)) [
        | inl e ↦ rw e kept
        | inr e ↦ rw e kept
      ]

  pub publish-IsSized :
      (b : Builder) (t : Option Bytes) (p : Bytes) (qos retain : ℕ)
      → IsLarge n b.conn
      → IsSized n (Build.publish b t p qos retain).conn
  unfolding Build.publish
  publish-IsSized b t p qos retain r = finish-AllReady _ MsgType.publish 0 qos retain (
      bind-AllReady _ (add_data p)
        (bind-AllReady _ (add_publish_id qos) (topic-AllReady t (start b) (init-IsSized n b.conn r))
          (publish_id-AllReady qos))
        (data-AllReady p))

  pub subscribe-IsSized :
      (b : Builder) (t : Option Bytes) (qos : ℕ)
      → IsLarge n b.conn
      → IsSized n (Build.subscribe b t qos).conn
  unfolding Build.subscribe
  subscribe-IsSized b t qos r = finish-AllReady _ MsgType.subscribe 0 1 0 (
      bind-AllReady _ (add_qos qos)
        (bind-AllReady _ (add_topic t)
          (bind-AllReady _ add_new_id (check-AllReady t (start b) (init-IsSized n b.conn r))
            new_id-AllReady)
          (topic-AllReady t))
        (qos-AllReady qos))

  pub unsubscribe-IsSized :
      (b : Builder) (t : Option Bytes) → IsLarge n b.conn → IsSized n (Build.unsubscribe b t).conn
  unfolding Build.unsubscribe
  unsubscribe-IsSized b t r = finish-AllReady _ MsgType.unsubscribe 0 1 0 (
      bind-AllReady _ (add_topic t)
        (bind-AllReady _ add_new_id (check-AllReady t (start b) (init-IsSized n b.conn r))
          new_id-AllReady)
        (topic-AllReady t))

  pub answer-IsSized :
      (c : Connection) (mid type qos : ℕ) → IsLarge n c → IsSized n (answer c mid type qos)
  unfolding answer
  answer-IsSized c mid type qos r =
      finish-AllReady _ type 0 qos 0
        (id-AllReady mid (start (record { conn = c; id = 0 })) (init-IsSized n c r))

  pub pingreq-IsSized : (c : Connection) → IsLarge n c → IsSized n (Build.pingreq c)
  unfolding Build.pingreq
  pingreq-IsSized c r = fini-IsSized n _ (init-IsSized n c r) MsgType.pingreq 0 0 0

  pub pingresp-IsSized : (c : Connection) → IsLarge n c → IsSized n (Build.pingresp c)
  unfolding Build.pingresp
  pingresp-IsSized c r = fini-IsSized n _ (init-IsSized n c r) MsgType.pingresp 0 0 0

  flag-IsSized :
      (p : Protocol) (flag : ℕ) (b : Builder) → IsSized n b.conn → IsSized n (or_flag p flag b).conn
  unfolding or_flag
  flag-IsSized p flag b r =
      let byte = bit_or (get_or b.conn.buffer (flags_at p) 0) flag % 256 in
      let size = length-set b.conn.buffer (flags_at p) byte in
      (
        record {
          storage = omega (arith, r.0.storage, size);
          least = r.0.least;
          most = r.0.most;
          counter = r.0.counter;
        },
        r.1,
        r.2,
      )

  flag_if-IsSized :
      (p : Protocol) (on flag : ℕ) (b : Builder)
      → IsSized n b.conn
      → IsSized n (or_flag_if p on flag b).conn
  unfolding or_flag_if
  flag_if-IsSized p on flag b r = elim (Bool-cases (on == 0)) [
    | inl e ↦ rw e r
    | inr e ↦ rw e (flag-IsSized p flag b r)
  ]

  header-AllReady :
      (p : Protocol) (k : ℕ) (b : Builder) → IsSized n b.conn → AllReady (add_variable_header p k b)
  unfolding add_variable_header
  header-AllReady p k b r =
      elim (Bool-cases
        (ltb b.conn.buffer_length (b.conn.message.length + length (variable_header p 0 k)))) [
          | inl e ↦ rw e r
          | inr e ↦ rw e (put_bytes-IsSized n b.conn r (variable_header p 0 k) (room _ _ n e r.1))
        ]

  client_id-AllReady :
      (p : Protocol) (s : Option Bytes) (b : Builder)
      → IsSized n b.conn
      → AllReady (add_client_id p s b)
  unfolding add_client_id
  client_id-AllReady v31 none b r = r
  client_id-AllReady v311 none b r = r
  client_id-AllReady v31 (some []) b r = r
  client_id-AllReady v311 (some []) b r = append_string-IsSized n b.conn r [] 2
  client_id-AllReady v31 (some (c ∷ cs)) b r = string-AllReady (c ∷ cs) b r
  client_id-AllReady v311 (some (c ∷ cs)) b r = string-AllReady (c ∷ cs) b r

  will-AllReady :
      (p : Protocol) (info : ConnectInfo) (t : Option Bytes) (b : Builder)
      → IsSized n b.conn
      → AllReady (add_will p info t b)
  unfolding add_will or_will_flags
  will-AllReady p info none b r = r
  will-AllReady p info (some []) b r = r
  will-AllReady p info (some (t ∷ ts)) b r =
      bind-AllReady (add_string (t ∷ ts) b >>= add_string (string_of info.will_message)) _
        (bind-AllReady _ (add_string (string_of info.will_message)) (string-AllReady (t ∷ ts) b r)
          (string-AllReady (string_of info.will_message)))
        (λ d s.
          flag-IsSized p (bit_and info.will_qos 3 * 8) _
            (flag_if-IsSized p info.will_retain flag_will_retain _ (flag-IsSized p flag_will d s)))

  optional-AllReady :
      (p : Protocol) (flag : ℕ) (s : Option Bytes) (b : Builder)
      → IsSized n b.conn
      → AllReady (add_optional p flag s b)
  unfolding add_optional
  optional-AllReady p flag none b r = r
  optional-AllReady p flag (some []) b r = r
  optional-AllReady p flag (some (t ∷ ts)) b r =
      bind-AllReady _ _ (string-AllReady (t ∷ ts) b r) (λ d s. flag-IsSized p flag d s)

  pub connect-IsSized :
      (p : Protocol) (c : Connection) (info : ConnectInfo)
      → IsLarge n c
      → IsSized n (connect p c info)
  unfolding connect
  connect-IsSized p c info r = finish-AllReady _ MsgType.connect 0 0 0 (
      bind-AllReady _ (add_optional p flag_password info.password)
        (bind-AllReady _ (add_optional p flag_username info.username)
          (bind-AllReady _ (add_will p info info.will_topic)
            (bind-AllReady _ (add_client_id p info.client_id)
              (bind-AllReady _ (λ b. more (or_flag_if p info.clean_session flag_clean_session b))
                (header-AllReady p info.keepalive (start (record { conn = c; id = 0 }))
                  (init-IsSized n c r))
                (λ d s. flag_if-IsSized p info.clean_session flag_clean_session d s))
              (client_id-AllReady p info.client_id))
            (will-AllReady p info info.will_topic))
          (optional-AllReady p flag_username info.username))
        (optional-AllReady p flag_password info.password))

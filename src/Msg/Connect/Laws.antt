-- ===== src/Msg/Connect/Laws.antt =====
-- `mqtt_msg_connect` of mqtt/mqtt_msg.c makes the CONNECT packet of what it is given.
use mathlib.Core.Path.{subst}
use esp_mqtt.Base.{
  ℕ, ◌*◌, ◌<◌, ◌≡◌, refl, Option, none, some, [], ◌∷◌, ◌++◌, append_assoc, append-nil, Bytes, true,
  arith, length, length-append, ◌==◌, bit_and, Bool-cases, inl, inr,
}
use esp_mqtt.Msg.MsgType
use esp_mqtt.Msg.{Connection, ConnectInfo}
use esp_mqtt.Msg.Build.{Builder, Outcome, more, ◌>>=◌, start, add_string, add_data}
use esp_mqtt.Msg.Packet.{packet, text}
use esp_mqtt.Msg.Stage.{
  IsReady, Stage, start-Stage, start_counter, Builds, went, stopped, string-Builds, data-Builds,
}
use esp_mqtt.Msg.Finish.{Made, conn-Makes, finish-Makes}
use esp_mqtt.Msg.Connect.{
  Protocol, v31, v311, variable_header, or_flag, or_flag_if, or_will_flags, add_variable_header,
  add_client_id, add_will, add_optional, string_of, connect, flag_clean_session, flag_username,
  flag_password, flag_will, flag_will_retain,
}
use esp_mqtt.Msg.Connect.Flags.{
  or_flag-Stage, with_flag, with_flag_if, flag_if, will_if, present, flags_set, flag_byte,
  flags_set-flag_byte,
}
use esp_mqtt.Msg.Connect.Body.{
  text_of, will_text, connect_payload, connect_body, header-connect_header,
}

header_length :
    (p : Protocol) (f g k : ℕ) → length (variable_header p f k) ≡ length (variable_header p g k)
header_length v31 f g k = refl
header_length v311 f g k = refl

named_client :
    (p : Protocol) (x : ℕ) (xs : Bytes) (b : Builder)
    → add_client_id p (some (x ∷ xs)) b ≡ add_string (x ∷ xs) b
unfolding add_client_id
named_client v31 x xs b = refl
named_client v311 x xs b = refl

-- Steps that keep the counter and `*message_id`, on a body with flags `f` and a payload `tail`.
module _ (p : Protocol) (c : Connection) (k : ℕ) where
  abbrev At : ℕ → Bytes → Outcome → Type 0
  At f tail o = Builds c (variable_header p f k ++ tail) c.message_id 0 o

  abbrev On : ℕ → Bytes → Builder → Type 0
  On f tail b =
      Stage c (variable_header p f k ++ tail) b.conn
      × (b.conn.message_id ≡ c.message_id)
      × (b.id ≡ 0)

  or_flag-On :
      (f flag : ℕ) (tail : Bytes) (b : Builder)
      → On f tail b
      → On (with_flag f flag) tail (or_flag p flag b)
  unfolding or_flag
  or_flag-On f flag tail b (s, e, z) = (or_flag-Stage p c f k flag tail b s, e, z)

  or_flag_if-On :
      (f set flag : ℕ) (tail : Bytes) (b : Builder)
      → On f tail b
      → On (with_flag_if set f flag) tail (or_flag_if p set flag b)
  unfolding or_flag_if
  or_flag_if-On f set flag tail b o = elim (Bool-cases (set == 0)) [
    | inl off ↦ rw off o
    | inr on ↦ rw on (or_flag-On f flag tail b o)
  ]

  On-At : (f : ℕ) (tail : Bytes) (b : Builder) → On f tail b → At f tail (more b)
  On-At f tail b (s, e, z) = went b (omega (arith, s.count, s.opened.within, s.limit)) s e z

  -- A part behind a part, where the flags may change and the payload may grow.
  bind-At :
      (f : ℕ) (tail : Bytes) {o : Outcome} (g : ℕ) (v : Bytes) (step : Builder → Outcome)
      → At f tail o
      → ((b : Builder) → On f tail b → At g (tail ++ v) (step b))
      → At g (tail ++ v) (o >>= step)
  bind-At f tail g v step (went next h s e z) keep = keep next (s, e, z)
  bind-At f tail g v step (stopped last h) keep = stopped last (
      omega (
        arith,
        h,
        length-append (variable_header p f k) tail,
        length-append (variable_header p g k) (tail ++ v),
        length-append tail v,
        header_length p f g k,
      ))

  string-At :
      (f : ℕ) (tail t : Bytes) (b : Builder) → On f tail b → At f (tail ++ text t) (add_string t b)
  string-At f tail t b (s, e, z) =
      rw (← append_assoc (variable_header p f k) tail (text t))
        (string-Builds c (variable_header p f k ++ tail) c.message_id 0 b s e z t)

  optional-At :
      (f flag : ℕ) (tail : Bytes) (s : Option Bytes) (b : Builder)
      → On f tail b
      → At (flag_if (present s) f flag) (tail ++ text_of s) (add_optional p flag s b)
  unfolding add_optional
  optional-At f flag tail none b o = rw append-nil (On-At f tail b o)
  optional-At f flag tail (some []) b o = rw append-nil (On-At f tail b o)
  optional-At f flag tail (some (t ∷ ts)) b o =
      let now = with_flag f flag in
      rw (← append-nil (tail ++ text (t ∷ ts))) (
        bind-At f (tail ++ text (t ∷ ts)) now [] (λ d. more (or_flag p flag d))
          (string-At f tail (t ∷ ts) b o)
          (λ d q. rw append-nil (
            On-At now (tail ++ text (t ∷ ts)) (or_flag p flag d)
              (or_flag-On f flag (tail ++ text (t ∷ ts)) d q))))

  will_flags-On :
      (info : ConnectInfo) (f : ℕ) (tail : Bytes) (b : Builder)
      → On f tail b
      → On (will_if true info.will_retain info.will_qos f) tail (or_will_flags p info b)
  unfolding or_will_flags
  will_flags-On info f tail b o =
      or_flag-On _ (bit_and info.will_qos 3 * 8) tail _
        (or_flag_if-On _ info.will_retain flag_will_retain tail _ (or_flag-On f flag_will tail b o))

  will-At :
      (info : ConnectInfo) (f : ℕ) (tail : Bytes) (topic : Option Bytes) (b : Builder)
      → On f tail b
      → At
          (will_if (present topic) info.will_retain info.will_qos f)
          (tail ++ will_text info topic)
          (add_will p info topic b)
  unfolding add_will
  will-At info f tail none b o = rw append-nil (On-At f tail b o)
  will-At info f tail (some []) b o = rw append-nil (On-At f tail b o)
  will-At info f tail (some (t ∷ ts)) b o =
      let now = will_if true info.will_retain info.will_qos f in
      let said = text (string_of info.will_message) in
      let all = tail ++ text (t ∷ ts) ++ said in
      let strings : At f all (add_string (t ∷ ts) b >>= add_string (string_of info.will_message)) =
        bind-At f (tail ++ text (t ∷ ts)) f said (add_string (string_of info.will_message))
          (string-At f tail (t ∷ ts) b o)
          (λ d q. string-At f (tail ++ text (t ∷ ts)) (string_of info.will_message) d q) in
      rw (← append_assoc tail (text (t ∷ ts)) said, ← append-nil all)
        (bind-At f all now [] (λ d. more (or_will_flags p info d)) strings
          (λ d q.
            rw append-nil (On-At now all (or_will_flags p info d) (will_flags-On info f all d q))))

  header-At :
      (b : Builder)
      → Stage c [] b.conn
      → b.conn.message_id ≡ c.message_id
      → b.id ≡ 0
      → At 0 [] (add_variable_header p k b)
  unfolding add_variable_header add_data
  header-At b s e z =
      rw append-nil (data-Builds c [] c.message_id 0 b s e z (variable_header p 0 k))

  client-At :
      (f : ℕ) (x : ℕ) (xs : Bytes) (b : Builder)
      → On f [] b
      → At f (text (x ∷ xs)) (add_client_id p (some (x ∷ xs)) b)
  client-At f x xs b o = rw (named_client p x xs b) (string-At f [] (x ∷ xs) b o)

  connect-At :
      (info : ConnectInfo) (x : ℕ) (xs : Bytes) (b : Builder)
      → info.keepalive ≡ k
      → info.client_id ≡ some (x ∷ xs)
      → Stage c [] b.conn
      → b.conn.message_id ≡ c.message_id
      → b.id ≡ 0
      → At (flags_set info) (connect_payload (x ∷ xs) info) (
          add_variable_header p k b
          >>= (λ d. more (or_flag_if p info.clean_session flag_clean_session d))
          >>= add_client_id p info.client_id
          >>= add_will p info info.will_topic
          >>= add_optional p flag_username info.username
          >>= add_optional p flag_password info.password)
  connect-At info x xs b ek named s e z =
      bind-At _ _ _ (text_of info.password) (add_optional p flag_password info.password)
        (bind-At _ _ _ (text_of info.username) (add_optional p flag_username info.username)
          (bind-At _ _ _ (will_text info info.will_topic) (add_will p info info.will_topic)
            (bind-At _ [] _ (text (x ∷ xs)) (add_client_id p info.client_id)
              (bind-At 0 [] clean []
                (λ d. more (or_flag_if p info.clean_session flag_clean_session d))
                (header-At b s e z)
                (λ d o.
                  On-At clean [] (or_flag_if p info.clean_session flag_clean_session d)
                    (or_flag_if-On 0 info.clean_session flag_clean_session [] d o)))
              (λ d o. rw named (client-At clean x xs d o)))
            (λ d o. will-At info _ _ info.will_topic d o))
          (λ d o. optional-At _ flag_username _ info.username d o))
        (λ d o. optional-At _ flag_password _ info.password d o)
    where
      clean : ℕ
      clean = with_flag_if info.clean_session 0 flag_clean_session

-- `mqtt_msg_connect` with a client identifier that is not empty and a will QoS below 256, on a fit
-- connection, makes the CONNECT packet of the given values and keeps the counter: name and level of
-- the protocol, the flags of what is there, the keep-alive time (modulo 2 ^ 16, high byte first), and
-- then identifier, will, user name and password, where that fits; else the message has length 0.
pub connect-packet :
    (p : Protocol) (c : Connection) (info : ConnectInfo) (x : ℕ) (xs : Bytes)
    → IsReady c
    → info.client_id ≡ some (x ∷ xs)
    → info.will_qos < 256
    → Made c
        (packet MsgType.connect 0 0 0)
        (connect_body p (x ∷ xs) info)
        c.message_id
        (connect p c info)
unfolding connect
connect-packet p c info x xs r named small =
    let b : Builder = record { conn = c; id = 0 } in
    let parts =
      add_variable_header p info.keepalive (start b)
      >>= (λ d. more (or_flag_if p info.clean_session flag_clean_session d))
      >>= add_client_id p info.client_id
      >>= add_will p info info.will_topic
      >>= add_optional p flag_username info.username
      >>= add_optional p flag_password info.password in
    let built =
      connect-At p c info.keepalive info x xs (start b) refl named (start-Stage c r)
        (start_counter b) refl in
    conn-Makes (
      finish-Makes {w = connect_body p (x ∷ xs) info} MsgType.connect 0 0 0 r (omega arith)
        (omega arith) (omega arith) (omega arith)
        (subst (λ h. Builds c (h ++ connect_payload (x ∷ xs) info) c.message_id 0 parts)
          (header-connect_header p (flag_byte info) info.keepalive)
          (rw (flags_set-flag_byte info small) at built)))

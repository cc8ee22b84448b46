-- ===== src/Client/Link/Blocks.antt =====
-- The blocks that `mqtt_client_delete` of mqtt/mqtt.c frees, counted.
use esp_mqtt.Base.{
  ℕ, ◌+◌, ◌≡◌, refl, ap, ◌∙◌, Bool, true, false, ◌&&◌, Option, none, some, List, [], ◌∷◌, arith,
  ◌==◌, if◌then◌else◌,
}
use esp_mqtt.Client.{
  Client, Block, tcp_block, espconn_block, host_block, user_data_block, in_block, out_block,
  queue_block, client_id_block, username_block, password_block, will_topic_block,
  will_message_block, inside_out, Effect, free, World, emit,
}
use esp_mqtt.Client.Link.{free_if, is_some, outbound_data, free_blocks}

-- Blocks are told apart by their kind and by their place in the out buffer.
abbrev pub kind : Block → ℕ
kind tcp_block = 0
kind espconn_block = 1
kind host_block = 2
kind user_data_block = 3
kind in_block = 4
kind out_block = 5
kind queue_block = 6
kind client_id_block = 7
kind username_block = 8
kind password_block = 9
kind will_topic_block = 10
kind will_message_block = 11
kind (inside_out at) = 12

abbrev pub place : Block → ℕ
place (inside_out at) = at
place _ = 0

abbrev pub is_same : Block → Block → Bool
is_same b k = kind b == kind k && place b == place k

-- How often a block has been freed.
abbrev pub freed : Block → List Effect → ℕ
freed b [] = 0
freed b (free k ∷ log) = (if is_same b k then 1 else 0) + freed b log
freed b (_ ∷ log) = freed b log

-- Whether the client points to a block; `inside_out` is where the message that has been built and not
-- sent stands in the out buffer.
abbrev pub is_held : Client → Block → Bool
is_held c tcp_block = is_some c.pcon
is_held c espconn_block = is_some c.pcon
is_held c host_block = is_some c.host
is_held c user_data_block = c.user_data
is_held c in_block = is_some c.state.in_buffer
is_held c out_block = c.state.out_buffer
is_held c queue_block = c.msg_queue.buf
is_held c client_id_block =
    is_some c.connect_info.client_id && (if c.zero_len_id then false else true)
is_held c username_block = is_some c.connect_info.username
is_held c password_block = is_some c.connect_info.password
is_held c will_topic_block = is_some c.connect_info.will_topic
is_held c will_message_block = is_some c.connect_info.will_message
is_held c (inside_out at) = elim (outbound_data c.state) [ none ↦ false | some place ↦ at == place ]

-- What a block adds to the count of another.
abbrev pub adds : Block → Block → Bool → ℕ
adds b k t = if is_same b k then (if t then 1 else 0) else 0

pub if_zero : (t : Bool) (n : ℕ) → n ≡ (if t then 0 else 0) + n
if_zero true n = omega arith
if_zero false n = omega arith

pub freed-free_if :
    (b k : Block) (t : Bool) (w : World) → freed b (free_if t k w).log ≡ adds b k t + freed b w.log
freed-free_if b k true w = refl
freed-free_if b k false w = if_zero (is_same b k) (freed b w.log)

abbrev pub inside : Block → Option ℕ → ℕ
inside b none = 0
inside b (some at) = if is_same b (inside_out at) then 1 else 0

pub freed_outbound :
    (b : Block) (o : Option ℕ) (w : World)
    → freed b (elim o as (λ _. World) [ none ↦ w | some at ↦ emit (free (inside_out at)) w ]).log
      ≡ inside b o + freed b w.log
freed_outbound b none w = omega arith
freed_outbound b (some at) w = refl

-- The sum over the blocks behind the TCP connection.
abbrev pub adds_all : Block → Client → ℕ → ℕ
adds_all b c n =
    adds b queue_block c.msg_queue.buf
    + (adds b will_message_block (is_some c.connect_info.will_message)
        + (adds b will_topic_block (is_some c.connect_info.will_topic)
            + (adds b password_block (is_some c.connect_info.password)
                + (adds b username_block (is_some c.connect_info.username)
                    + (adds b client_id_block (
                          is_some c.connect_info.client_id
                          && (if c.zero_len_id then false else true))
                        + (inside b (outbound_data c.state)
                            + (adds b out_block c.state.out_buffer
                                + (adds b in_block (is_some c.state.in_buffer)
                                    + (adds b user_data_block c.user_data
                                        + (adds b host_block (is_some c.host) + (n)))))))))))

pub freed-free_blocks :
    (b : Block) (c : Client) (w : World)
    → freed b (free_blocks c w).log ≡ adds_all b c (freed b w.log)
unfolding free_blocks
freed-free_blocks b c w =
    freed-free_if b queue_block c.msg_queue.buf _
    ∙ ap (λ (n : ℕ). adds b queue_block c.msg_queue.buf + n)
        (freed-free_if b will_message_block (is_some c.connect_info.will_message) _
          ∙ ap (λ (n : ℕ). adds b will_message_block (is_some c.connect_info.will_message) + n)
              (freed-free_if b will_topic_block (is_some c.connect_info.will_topic) _
                ∙ ap (λ (n : ℕ). adds b will_topic_block (is_some c.connect_info.will_topic) + n)
                    (freed-free_if b password_block (is_some c.connect_info.password) _
                      ∙ ap (λ (n : ℕ). adds b password_block (is_some c.connect_info.password) + n)
                          (freed-free_if b username_block (is_some c.connect_info.username) _
                            ∙ ap
                                (λ (n : ℕ).
                                  adds b username_block (is_some c.connect_info.username) + n)
                                (freed-free_if b client_id_block
                                    (is_some c.connect_info.client_id
                                      && (if c.zero_len_id then false else true))
                                    _
                                  ∙ ap
                                      (λ (n : ℕ).
                                        adds b client_id_block (
                                          is_some c.connect_info.client_id
                                          && (if c.zero_len_id then false else true))
                                        + n)
                                      (freed_outbound b (outbound_data c.state) _
                                        ∙ ap (λ (n : ℕ). inside b (outbound_data c.state) + n)
                                            (freed-free_if b out_block c.state.out_buffer _
                                              ∙ ap
                                                  (λ (n : ℕ).
                                                    adds b out_block c.state.out_buffer + n)
                                                  (freed-free_if b in_block
                                                      (is_some c.state.in_buffer) _
                                                    ∙ ap
                                                        (λ (n : ℕ).
                                                          adds b in_block
                                                            (is_some c.state.in_buffer)
                                                          + n)
                                                        (freed-free_if b user_data_block c.user_data
                                                            _
                                                          ∙ ap
                                                            (λ (n : ℕ).
                                                            adds b user_data_block c.user_data + n)
                                                            (freed-free_if b host_block
                                                            (is_some c.host) _))))))))))

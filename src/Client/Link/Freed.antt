-- ===== src/Client/Link/Freed.antt =====
-- What the deletion of a client frees (`mqtt_client_delete` of mqtt/mqtt.c): each block that the
-- client points to, once.
use esp_mqtt.Base.{
  ℕ, ◌+◌, ◌≡◌, refl, ap, ◌∙◌, Bool, true, false, ◌&&◌, Option, none, some, arith, ◌==◌,
  if◌then◌else◌,
}
use esp_mqtt.Client.{
  Client, Espconn, Block, tcp_block, espconn_block, host_block, user_data_block, in_block,
  out_block, queue_block, client_id_block, username_block, password_block, will_topic_block,
  will_message_block, inside_out, free, abort_conn, delete_conn, World, emit, set_client,
}
use esp_mqtt.Client.Link.{tcpclient_delete, is_some, outbound_data, client_delete}
use esp_mqtt.Client.Link.Blocks.{kind, place, freed, is_held, inside, adds_all, freed-free_blocks}

-- That sum counts a block once if the client points to it. The TCP connection is deleted before.
abbrev is_behind : Client → Block → Bool
is_behind c tcp_block = false
is_behind c espconn_block = false
is_behind c b = is_held c b

inside_other : (b : Block) (o : Option ℕ) → (kind b == 12) ≡ false → inside b o ≡ 0
inside_other b none h = refl
inside_other b (some at) h = rw h refl

inside_self :
    (at n : ℕ) (o : Option ℕ)
    → inside (inside_out at) o + n
      ≡ (if elim o as (λ _. Bool) [ none ↦ false | some place ↦ at == place ] then 1 else 0) + n
inside_self at n none = refl
inside_self at n (some at') = refl

as_held : (b : Block) (c : Client) (n : ℕ) → adds_all b c n ≡ (if is_behind c b then 1 else 0) + n
as_held (inside_out at) c n = omega (arith, inside_self at n (outbound_data c.state))
as_held tcp_block c n = omega (arith, inside_other tcp_block (outbound_data c.state) refl)
as_held espconn_block c n = omega (arith, inside_other espconn_block (outbound_data c.state) refl)
as_held host_block c n = omega (arith, inside_other host_block (outbound_data c.state) refl)
as_held user_data_block c n =
    omega (arith, inside_other user_data_block (outbound_data c.state) refl)
as_held in_block c n = omega (arith, inside_other in_block (outbound_data c.state) refl)
as_held out_block c n = omega (arith, inside_other out_block (outbound_data c.state) refl)
as_held queue_block c n = omega (arith, inside_other queue_block (outbound_data c.state) refl)
as_held client_id_block c n =
    omega (arith, inside_other client_id_block (outbound_data c.state) refl)
as_held username_block c n = omega (arith, inside_other username_block (outbound_data c.state) refl)
as_held password_block c n = omega (arith, inside_other password_block (outbound_data c.state) refl)
as_held will_topic_block c n =
    omega (arith, inside_other will_topic_block (outbound_data c.state) refl)
as_held will_message_block c n =
    omega (arith, inside_other will_message_block (outbound_data c.state) refl)

abbrev is_tcp : Block → Bool
is_tcp tcp_block = true
is_tcp espconn_block = true
is_tcp b = false

-- `mqtt_tcpclient_delete`, on the connection that there is.
abbrev without_tcp : Option Espconn → World → World
without_tcp p w = elim p as (λ _. World) [
  | none ↦ w
  | some pcon ↦
      let gone =
        emit (free espconn_block) (emit (free tcp_block) (emit delete_conn (emit abort_conn w))) in
      set_client (record gone.client { pcon = none }) gone
]

tcp_freed :
    (b : Block) (p : Option Espconn) (w : World)
    → (freed b (without_tcp p w).log ≡ (if is_tcp b && is_some p then 1 else 0) + freed b w.log)
      × (is_behind (without_tcp p w).client b ≡ is_behind w.client b)
tcp_freed tcp_block none w = (omega arith, refl)
tcp_freed tcp_block (some p) w = (omega arith, refl)
tcp_freed espconn_block none w = (omega arith, refl)
tcp_freed espconn_block (some p) w = (omega arith, refl)
tcp_freed host_block none w = (omega arith, refl)
tcp_freed host_block (some p) w = (omega arith, refl)
tcp_freed user_data_block none w = (omega arith, refl)
tcp_freed user_data_block (some p) w = (omega arith, refl)
tcp_freed in_block none w = (omega arith, refl)
tcp_freed in_block (some p) w = (omega arith, refl)
tcp_freed out_block none w = (omega arith, refl)
tcp_freed out_block (some p) w = (omega arith, refl)
tcp_freed queue_block none w = (omega arith, refl)
tcp_freed queue_block (some p) w = (omega arith, refl)
tcp_freed client_id_block none w = (omega arith, refl)
tcp_freed client_id_block (some p) w = (omega arith, refl)
tcp_freed username_block none w = (omega arith, refl)
tcp_freed username_block (some p) w = (omega arith, refl)
tcp_freed password_block none w = (omega arith, refl)
tcp_freed password_block (some p) w = (omega arith, refl)
tcp_freed will_topic_block none w = (omega arith, refl)
tcp_freed will_topic_block (some p) w = (omega arith, refl)
tcp_freed will_message_block none w = (omega arith, refl)
tcp_freed will_message_block (some p) w = (omega arith, refl)
tcp_freed (inside_out at) none w = (omega arith, refl)
tcp_freed (inside_out at) (some p) w = (omega arith, refl)

-- The TCP connection and what stands behind it.
held_parts :
    (b : Block) (c : Client) (n : ℕ)
    → (if is_behind c b then 1 else 0) + ((if is_tcp b && is_some c.pcon then 1 else 0) + n)
      ≡ (if is_held c b then 1 else 0) + n
held_parts tcp_block c n = omega arith
held_parts espconn_block c n = omega arith
held_parts b c n = omega arith

-- `mqtt_client_delete` frees each block that the client points to exactly once, and no other: the
-- TCP connection, host, user data, the buffers, the strings of the connection's settings and the
-- queue. But the place of a message that has been built and not sent counts as a block of its own, so
-- it is freed too, though it lies in the out buffer, which is itself freed.
pub client_delete_frees :
    (b : Block) (w : World)
    → freed b (client_delete w).log ≡ (if is_held w.client b then 1 else 0) + freed b w.log
unfolding client_delete tcpclient_delete
client_delete_frees b w =
    let v = without_tcp w.client.pcon w in
    let (count, kept) = tcp_freed b w.client.pcon w in
    freed-free_blocks b v.client v
    ∙ as_held b v.client (freed b v.log)
    ∙ ap (λ t. (if t then 1 else 0) + freed b v.log) kept
    ∙ ap (λ (n : ℕ). (if is_behind w.client b then 1 else 0) + n) count
    ∙ held_parts b w.client (freed b w.log)

-- ===== src/Client/Invariant/Started.antt =====
-- `MQTT_InitClient` of mqtt/mqtt.c: the client that it leaves is well.
use esp_mqtt.Base.{
  ℕ, ◌≡◌, refl, true, false, Option, none, some, Bool, [], Bytes, arith, length-replicate,
  replicate,
}
use esp_mqtt.Queue.Refine.{init-Holds}
use esp_mqtt.Msg.{msg_init}
use esp_mqtt.Client.{World, Env, set_client}
use esp_mqtt.Client.Setup.{no_info, choose_client_id, set_up, init_client}
use esp_mqtt.Client.Invariant.{IsWell, IsFit, same-IsWell}

set_up-IsWell :
    (env : Env) (id : Bytes) (zero : Bool) (user pass : Option Bytes) (keep clean : ℕ) (w : World)
    → IsFit env
    → IsWell env (set_up env id zero user pass keep clean w).client
unfolding set_up msg_init
set_up-IsWell env id zero user pass keep clean w fit =
    let size = length-replicate {A = ℕ} env.buf_size 0 in
    record {
      ready = (
        record {
          storage = omega (arith, size);
          least = fit.least;
          most = fit.most;
          counter = omega arith;
        },
        refl,
        omega arith,
      );
      buffer = replicate env.buf_size 0;
      in_there = refl;
      in_size = size;
      messages = [];
      holds = (init-Holds w.client.msg_queue env.queue_size fit.queue_least fit.queue_most).0;
    }

-- `MQTT_InitClient` that returns true leaves a well client, whatever it was before.
pub init_client-IsWell :
    (env : Env) (id user pass : Option Bytes) (keep clean : ℕ) (w : World)
    → IsFit env
    → (init_client env id user pass keep clean w).0 ≡ true
    → IsWell env (init_client env id user pass keep clean w).1.client
unfolding init_client
init_client-IsWell env id user pass keep clean w fit =
    by_choice (choose_client_id env.protocol id clean)
  where
    result : Option (Bytes × Bool) → Bool × World
    result o = elim o [
      | none ↦
          (false, set_client (record w.client { connect_info = no_info; zero_len_id = false }) w)
      | some (id, zero) ↦ (true, set_up env id zero user pass keep clean w)
    ]

    by_choice : (o : Option (Bytes × Bool)) → (result o).0 ≡ true → IsWell env (result o).1.client
    by_choice none e = cc
    by_choice (some (id, zero)) e = set_up-IsWell env id zero user pass keep clean w fit

-- A well client is well behind it, whatever it returns.
pub inits-IsWell :
    {env : Env} (id user pass : Option Bytes) (keep clean : ℕ) (w : World)
    → IsFit env
    → IsWell env w.client
    → IsWell env (init_client env id user pass keep clean w).1.client
unfolding init_client
inits-IsWell {env} id user pass keep clean w fit v =
    by_choice (choose_client_id env.protocol id clean)
  where
    by_choice :
        (o : Option (Bytes × Bool))
        → IsWell env
            (elim o as (λ _. Bool × World) [
              | none ↦ (
                false,
                set_client (record w.client { connect_info = no_info; zero_len_id = false }) w,
              )
              | some (id, zero) ↦ (true, set_up env id zero user pass keep clean w)
            ]).1.client
    by_choice none = same-IsWell w.client _ refl refl refl refl v
    by_choice (some (id, zero)) = set_up-IsWell env id zero user pass keep clean w fit

-- ===== src/Queue/Tests.antt =====
-- Runs of mqtt/queue.c on a queue of twelve bytes.
use esp_mqtt.Base.{◌≡◌, refl, some, none, true, false, List, [], ◌∷◌, arith, replicate}
use esp_mqtt.RingBuf.{empty}
use esp_mqtt.Proto.{Parser, is_special}
use esp_mqtt.Queue.{Queue}
use esp_mqtt.Queue.Spec
use esp_mqtt.Queue.Spec.{Op, Reply, queued, got}
use esp_mqtt.Queue.Refine.{Holds}
use esp_mqtt.Queue.Run.{run, queue_run_refines}

abbrev cleared : Queue
cleared = record { buf = false; rb = empty [] 0 }

abbrev twelve : Queue
twelve = record { buf = true; rb = empty (replicate 12 0) 12 }

twelve-Holds : Holds twelve []
twelve-Holds = record { valid = omega arith; small = omega arith; bytes = refl }

abbrev stack_parser : Parser
stack_parser = record {
  buf = [];
  buf_size = 0;
  data_len = 3;
  is_esc = 1;
  is_begin = 1;
  callback = none;
}

abbrev calls : List Op
calls =
    Op.puts (1 ∷ 2 ∷ [])
    ∷ Op.puts (0x7E ∷ 0x7D ∷ [])
    ∷ Op.puts (4 ∷ [])
    ∷ Op.gets
    ∷ Op.gets
    ∷ Op.gets
    ∷ []

queue_run_refines_example :
    run stack_parser (replicate 4 0) 4 twelve calls
    ≡ queued true
      ∷ queued true
      ∷ queued false
      ∷ got (some (1 ∷ 2 ∷ []))
      ∷ got (some (0x7E ∷ 0x7D ∷ []))
      ∷ got none
      ∷ []
unfolding Spec.run Spec.push Spec.pop is_special
queue_run_refines_example =
    queue_run_refines stack_parser (replicate 4 0) 4 calls twelve [] (omega arith) twelve-Holds

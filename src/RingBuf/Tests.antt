-- ===== src/RingBuf/Tests.antt =====
-- Runs of mqtt/ringbuf.c on a ring of four bytes.
use esp_mqtt.Base.{◌≡◌, some, none, List, [], ◌∷◌, arith}
use esp_mqtt.RingBuf.{RingBuf, empty, ok, fail}
use esp_mqtt.RingBuf.Inv.{IsValid}
use esp_mqtt.RingBuf.Fifo
use esp_mqtt.RingBuf.Fifo.{Op, Reply, putted, got}
use esp_mqtt.RingBuf.Contents.{run, run_refines}

abbrev four : RingBuf
four = empty (0 ∷ 0 ∷ 0 ∷ 0 ∷ []) 4

four-IsValid : IsValid four
four-IsValid = omega arith

abbrev calls : List Op
calls =
    Op.get ∷ Op.put 1 ∷ Op.put 2 ∷ Op.put 3 ∷ Op.put 4 ∷ Op.put 5 ∷ Op.get ∷ Op.put 6 ∷ Op.get ∷ []

abbrev replies : List Reply
replies =
    got none
    ∷ putted ok
    ∷ putted ok
    ∷ putted ok
    ∷ putted ok
    ∷ putted fail
    ∷ got (some 1)
    ∷ putted ok
    ∷ got (some 2)
    ∷ []

run_refines_example : run four calls ≡ replies
unfolding Fifo.run Fifo.push Fifo.pop
run_refines_example = run_refines calls four four-IsValid

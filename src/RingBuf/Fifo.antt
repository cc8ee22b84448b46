-- ===== src/RingBuf/Fifo.antt =====
-- The contract of mqtt/ringbuf.c: a first-in first-out queue of at most `cap` bytes, oldest first.
use esp_mqtt.Base.{ℕ, Option, none, some, List, [], ◌∷◌, ◌++◌, Bytes, length, leb, if◌then◌else◌}
use esp_mqtt.RingBuf.{Status, ok, fail}

unfoldable pub push : ℕ → Bytes → ℕ → Status × Bytes
push cap q c = if leb cap (length q) then (fail, q) else (ok, q ++ (c ∷ []))

unfoldable pub pop : Bytes → Option ℕ × Bytes
pop [] = (none, [])
pop (c ∷ q) = (some c, q)

pub data Op : Type 0 where
  put : ℕ → Op
  get : Op

-- What a call returns: the status of a put, the byte of a get.
pub data Reply : Type 0 where
  putted : Status → Reply
  got : Option ℕ → Reply

unfoldable pub run : ℕ → Bytes → List Op → List Reply
run cap q [] = []
run cap q (put c ∷ ops) = let (s, q') = push cap q c in putted s ∷ run cap q' ops
run cap q (get ∷ ops) = let (o, q') = pop q in got o ∷ run cap q' ops

-- ===== src/Queue/Spec.antt =====
-- The contract of mqtt/queue.c: messages, oldest first, whose frames fit in `cap` bytes together.
use esp_mqtt.Base.{
  ℕ, ◌+◌, Option, none, some, List, [], ◌∷◌, ◌++◌, Bytes, Bool, true, false, length, take, leb,
  if◌then◌else◌,
}
use mathlib.Core.Option
use esp_mqtt.Proto.Frame.{frame, frames}

abbrev pub room : ℕ → List Bytes → Bytes → Bool
room cap ms m = leb (length (frames ms) + length (frame m)) cap

unfoldable pub push : ℕ → List Bytes → Bytes → Bool × List Bytes
push cap ms m = if room cap ms m then (true, ms ++ (m ∷ [])) else (false, ms)

unfoldable pub pop : List Bytes → Option Bytes × List Bytes
pop [] = (none, [])
pop (m ∷ ms) = (some m, ms)

pub data Op : Type 0 where
  puts : Bytes → Op
  gets : Op

-- What a client sees: whether the message was taken, the message that came out.
pub data Reply : Type 0 where
  queued : Bool → Reply
  got : Option Bytes → Reply

-- A message that comes out is cut to the `max_len` bytes of the client's buffer.
unfoldable pub run : ℕ → ℕ → List Bytes → List Op → List Reply
run cap max_len ms [] = []
run cap max_len ms (puts m ∷ ops) =
    let (done, ms') = push cap ms m in queued done ∷ run cap max_len ms' ops
run cap max_len ms (gets ∷ ops) =
    let (o, ms') = pop ms in got (Option.map (take max_len) o) ∷ run cap max_len ms' ops

-- ===== src/Uart/Send/Laws.antt =====
-- What reaches the transmit FIFO, and that it never gets a byte without room.
use esp_mqtt.Base.{
  ℕ, zero, suc, ◌%◌, ◌<◌, ◌≡◌, refl, sym, ap, Bool, true, false, Option, none, some, List, [], ◌∷◌,
  ◌++◌, Bytes, arith, ltb, ◌==◌, if◌then◌else◌, Bool-cases, inl, inr, ltb→lt,
}
use mathlib.Core.Path.{subst}
use esp_mqtt.Uart.Registers.{uart_status, uart_fifo}
use esp_mqtt.Uart.{Access, read_reg, write_reg, Port, Hardware, access}
use esp_mqtt.Uart.Send.{fifo_cnt, tx_one_char}

-- A write to the FIFO of a UART, with the byte.
abbrev pub fifo_write : ℕ → Access → Option ℕ
fifo_write uart (write_reg a v) = if a == uart_fifo uart then some v else none
fifo_write uart _ = none

abbrev pub append_some : Option ℕ → Bytes → Bytes
append_some none bs = bs
append_some (some v) bs = bs ++ (v ∷ [])

-- The bytes that have been written to the FIFO of a UART, in their order.
abbrev pub written : ℕ → List Access → Bytes
written uart [] = []
written uart (a ∷ log) = append_some (fifo_write uart a) (written uart log)

-- The latest access has read a status in which the FIFO of a UART has room.
abbrev pub HasRoom : Hardware → ℕ → List Access → Type 0
HasRoom hw uart [] = ⊥
HasRoom hw uart (read_reg a ∷ log) =
    (a ≡ uart_status uart) × (fifo_cnt (hw.reg log (uart_status uart)) < 126)
HasRoom hw uart (_ ∷ log) = ⊥

abbrev pub AndIfWritten : Option ℕ → Type 0 → Type 0 → Type 0
AndIfWritten none A B = B
AndIfWritten (some v) A B = A × B

-- Each write to the FIFO comes right after such a look at the status.
abbrev pub IsGuarded : Hardware → ℕ → List Access → Type 0
IsGuarded hw uart [] = Unit {0}
IsGuarded hw uart (a ∷ log) =
    AndIfWritten (fifo_write uart a) (HasRoom hw uart log) (IsGuarded hw uart log)

-- Reading the status often enough.
abbrev pub polls : ℕ → ℕ → List Access → List Access
polls uart zero log = log
polls uart (suc k) log = polls uart k (read_reg (uart_status uart) ∷ log)

-- A UART that sends: after any accesses, one of the next `n` looks at the status finds room.
abbrev pub Drains : Hardware → ℕ → ℕ → Type 0
Drains hw n uart =
    (log : List Access)
    → (k : ℕ) × (k < n) × (fifo_cnt (hw.reg (polls uart k log) (uart_status uart)) < 126)

-- What a call leaves that sends bytes: they have been written behind the others, each with room.
pub data Sends (hw : Hardware) (uart : ℕ) (p : Port) (bytes : Bytes) : Option Port → Type 0 where
  sends :
      (q : Port)
      → q.device ≡ p.device
      → written uart q.log ≡ written uart p.log ++ bytes
      → IsGuarded hw uart q.log
      → Sends hw uart p bytes (some q)

fifo_write_self : (uart v : ℕ) → fifo_write uart (write_reg (uart_fifo uart) v) ≡ some v
fifo_write_self uart v = ground arith

-- One look at the status: the byte is sent, or what comes later sends it.
look-Sends :
    (hw : Hardware) (uart v : ℕ) (p : Port) (rest : Option Port)
    → IsGuarded hw uart p.log
    → (ltb (fifo_cnt (hw.reg p.log (uart_status uart))) 126 ≡ false
        → Sends hw uart (access (read_reg (uart_status uart)) p) (v ∷ []) rest)
    → Sends hw uart p (v ∷ []) (
        if ltb (fifo_cnt (hw.reg p.log (uart_status uart))) 126
        then some (access (write_reg (uart_fifo uart) v) (access (read_reg (uart_status uart)) p))
        else rest)
look-Sends hw uart v p rest g later =
    elim (Bool-cases (ltb (fifo_cnt (hw.reg p.log (uart_status uart))) 126)) [
      | inl e ↦ subst branch (sym e) (now e)
      | inr e ↦ subst branch (sym e) (from_looked (later e))
    ]
  where
    looked : Port
    looked = access (read_reg (uart_status uart)) p

    full : Port
    full = access (write_reg (uart_fifo uart) v) looked

    branch : Bool → Type 0
    branch b = Sends hw uart p (v ∷ []) (if b then some full else rest)

    from_looked :
        {out : Option Port} → Sends hw uart looked (v ∷ []) out → Sends hw uart p (v ∷ []) out
    from_looked (sends q d w g) = sends q d w g

    now :
        ltb (fifo_cnt (hw.reg p.log (uart_status uart))) 126 ≡ true
        → Sends hw uart p (v ∷ []) (some full)
    now e =
        let self = fifo_write_self uart v in
        sends full refl (ap (λ o. append_some o (written uart p.log)) self) (
          subst (λ o. AndIfWritten o (HasRoom hw uart looked.log) (IsGuarded hw uart looked.log))
            (sym self) ((refl, ltb→lt _ _ e), g))

pub tx_one_char-Sends :
    (hw : Hardware) (k n uart c : ℕ) (p : Port)
    → k < n
    → fifo_cnt (hw.reg (polls uart k p.log) (uart_status uart)) < 126
    → IsGuarded hw uart p.log
    → Sends hw uart p ((c % 256) ∷ []) (tx_one_char hw n uart c p)
unfolding tx_one_char
tx_one_char-Sends hw k zero uart c p h room g = absurd (omega arith)
tx_one_char-Sends hw zero (suc n) uart c p h room g =
    look-Sends hw uart (c % 256) p _ g (λ e. absurd (ground arith))
tx_one_char-Sends hw (suc k) (suc n) uart c p h room g = look-Sends hw uart (c % 256) p _ g (λ e.
    tx_one_char-Sends hw k n uart c (access (read_reg (uart_status uart)) p) (omega arith) room g)

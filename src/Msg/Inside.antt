-- ===== src/Msg/Inside.antt =====
-- The readers of mqtt/mqtt_msg.c on bytes that need not be a packet: they look at none behind the
-- received length, and hand out no part of the memory behind it.
use esp_mqtt.Base.{
  ℕ, zero, suc, ◌+◌, ◌-◌, ◌*◌, ◌/◌, ◌^◌, ◌≤◌, ◌<◌, ◌≡◌, refl, sym, ap, ap₂, ◌∙◌, bit_and, bit_or,
  Bool, true, false, Option, none, some, Bytes, take, get_or, get_or-take, arith, ltb, leb, ◌==◌,
  ◌&&◌, if◌then◌else◌, Bool-cases, inl, inr,
}
use esp_mqtt.Msg.Read.{
  byte_at, word_at, get_type, get_qos, length_loop, read_length, get_total_length,
  get_publish_topic, publish_data_at, get_publish_data, publish_id, get_id, has_plain_id,
}
use esp_mqtt.Msg.MsgType

-- A part of the received bytes: an offset and a length.
abbrev pub Inside : ℕ → Option ℕ × ℕ → Type 0
Inside n (none, len) = Unit {0}
Inside n (some at, len) = at + len ≤ n

-- Two tests that differ where the test fails.
if_same {ℓ} :
    {A : Type ℓ} (t : Bool) (x : A) {y z : A}
    → (t ≡ false → y ≡ z)
    → (if t then x else y) ≡ (if t then x else z)
if_same true x e = refl
if_same false x e = e refl

-- `get_publish_data` behind the topic, which ends at `j`.
abbrev data_behind : ℕ → ℕ → ℕ → ℕ → Option ℕ × ℕ
data_behind qos j totlen n =
    if leb n j
    then (none, 0)
    else if ltb 0 qos
    then (if leb n (j + 2) then (none, 0) else publish_data_at (j + 2) totlen n)
    else publish_data_at j totlen n

module _ (b c : Bytes) (n : ℕ) (same : take n b ≡ take n c) where
  same_byte : (i : ℕ) → i < n → byte_at b i ≡ byte_at c i
  same_byte i h =
      sym (get_or-take n b i 0 h) ∙ ap (λ xs. get_or xs i 0) same ∙ get_or-take n c i 0 h

  same_word : (i : ℕ) → i + 1 < n → word_at b i ≡ word_at c i
  same_word i h =
      ap₂ (λ x y. bit_or (x * 256) y) (same_byte i (omega arith)) (same_byte (i + 1) (omega arith))

  same_loop : (k i totlen : ℕ) → i + k ≤ n → length_loop b k i totlen ≡ length_loop c k i totlen
  unfolding length_loop
  same_loop zero i totlen h = refl
  same_loop (suc k) i totlen h =
      let e = same_byte i (omega arith) in
      rw e (
        let sum = totlen + bit_and (byte_at c i) 0x7f * 2 ^ (7 * (i - 1)) in
        ap (λ (rest : ℕ × ℕ). if bit_and (byte_at c i) 0x80 == 0 then (i + 1, sum) else rest)
          (same_loop k (i + 1) sum (omega arith)))

  module _ (some_bytes : 1 ≤ n) where
    same_length : read_length b n ≡ read_length c n
    same_length = same_loop (n - 1) 1 0 (omega arith)

    same_type : get_type b ≡ get_type c
    unfolding get_type
    same_type = ap (λ x. bit_and x 0xf0 / 16) (same_byte 0 some_bytes)

    same_qos : get_qos b ≡ get_qos c
    unfolding get_qos
    same_qos = ap (λ x. bit_and x 0x06 / 2) (same_byte 0 some_bytes)

    same_total : get_total_length b n ≡ get_total_length c n
    unfolding get_total_length
    same_total = ap (λ (r : ℕ × ℕ). r.1 + r.0) same_length

    same_topic : get_publish_topic b n ≡ get_publish_topic c n
    unfolding get_publish_topic
    same_topic =
        let i = (read_length c n).0 in
        rw same_length (
          if_same (leb n (i + 2)) (none, n)
            (λ e.
              ap (λ word. if ltb n (i + 2 + word) then (none, n) else (some (i + 2), word))
                (same_word i (ground arith))))

    same_data : get_publish_data b n ≡ get_publish_data c n
    unfolding get_publish_data
    same_data =
        let i = (read_length c n).0 in
        rw (same_length, same_qos)
          (if_same (leb n (i + 2)) (none, 0)
            (λ e.
              ap (λ word. data_behind (get_qos c) (i + 2 + word) ((read_length c n).1 + i) n)
                (same_word i (ground arith))))

    same_publish_id : publish_id b n ≡ publish_id c n
    unfolding publish_id
    same_publish_id =
        let i = (read_length c n).0 in
        let j = i + 2 + word_at c i in
        rw (same_length, same_qos)
          (if_same (leb n (i + 2)) 0 (λ e.
            ap
              (λ word.
                let k = i + 2 + word in
                if leb n k
                then 0
                else if ltb 0 (get_qos c)
                then (if leb n (k + 2) then 0 else word_at b k)
                else 0)
              (same_word i (ground arith))
            ∙ if_same (leb n j) 0 (λ short.
              ap (λ mid. if ltb 0 (get_qos c) then mid else 0)
                (if_same (leb n (j + 2)) 0 (λ e'. same_word j (ground arith))))))

    same_plain_id :
        (if leb 4 n && bit_and (byte_at b 1) 0x80 == 0 then word_at b 2 else 0)
        ≡ (if leb 4 n && bit_and (byte_at c 1) 0x80 == 0 then word_at c 2 else 0)
    same_plain_id = elim (Bool-cases (leb 4 n)) [
      | inl e ↦
          ap₂ (λ first word. if leb 4 n && bit_and first 0x80 == 0 then word else 0)
            (same_byte 1 (ground arith)) (same_word 2 (ground arith))
      | inr e ↦ rw e refl
    ]

    same_id : get_id b n ≡ get_id c n
    unfolding get_id
    same_id =
        rw (same_type, same_publish_id)
          (ap
            (λ mid.
              if ltb n 1
              then 0
              else if get_type c == MsgType.publish
              then publish_id c n
              else if has_plain_id (get_type c)
              then mid
              else 0)
            same_plain_id)

if-Inside :
    (n : ℕ) (t : Bool) (x y : Option ℕ × ℕ)
    → (t ≡ true → Inside n x)
    → (t ≡ false → Inside n y)
    → Inside n (if t then x else y)
if-Inside n true x y p q = p refl
if-Inside n false x y p q = q refl

topic-Inside : (b : Bytes) (n : ℕ) → Inside n (get_publish_topic b n)
unfolding get_publish_topic
topic-Inside b n =
    let i = (read_length b n).0 in
    if-Inside n (leb n (i + 2)) _ _ (λ _. tt)
      (λ _. if-Inside n (ltb n (i + 2 + word_at b i)) _ _ (λ _. tt) (λ long. ground arith))

data_at-Inside : (i totlen n : ℕ) → i ≤ n → Inside n (publish_data_at i totlen n)
unfolding publish_data_at
data_at-Inside i totlen n h =
    if-Inside n (ltb totlen i) _ _ (λ _. tt)
      (λ e. if-Inside n (leb totlen n) _ _ (λ k. ground arith) (λ k. omega arith))

data-Inside : (b : Bytes) (n : ℕ) → Inside n (get_publish_data b n)
unfolding get_publish_data
data-Inside b n =
    let i = (read_length b n).0 in
    let totlen = (read_length b n).1 + i in
    let j = i + 2 + word_at b i in
    if-Inside n (leb n (i + 2)) _ _ (λ _. tt)
      (λ _.
        if-Inside n (leb n j) _ _ (λ _. tt)
          (λ e.
            if-Inside n (ltb 0 (get_qos b)) _ _
              (λ _.
                if-Inside n (leb n (j + 2)) _ _ (λ _. tt)
                  (λ k. data_at-Inside (j + 2) totlen n (ground arith)))
              (λ _. data_at-Inside j totlen n (ground arith))))

-- Whatever bytes have been received, at least one: `mqtt_get_publish_topic`, `mqtt_get_publish_data`,
-- `mqtt_get_id` and `mqtt_get_total_length` answer the same for any two memories that agree in the
-- first `n` bytes, if they are told that `n` bytes came; and the topic and the payload that they
-- hand out lie within these.
pub readers-Inside :
    (b c : Bytes) (n : ℕ)
    → take n b ≡ take n c
    → 1 ≤ n
    → (get_publish_topic b n ≡ get_publish_topic c n)
      × (get_publish_data b n ≡ get_publish_data c n)
      × (get_id b n ≡ get_id c n)
      × (get_total_length b n ≡ get_total_length c n)
      × Inside n (get_publish_topic b n)
      × Inside n (get_publish_data b n)
readers-Inside b c n same h = (
  same_topic b c n same h,
  same_data b c n same h,
  same_id b c n same h,
  same_total b c n same h,
  topic-Inside b n,
  data-Inside b n,
)

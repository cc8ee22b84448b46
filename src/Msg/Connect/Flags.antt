-- ===== src/Msg/Connect/Flags.antt =====
-- The flag byte of a CONNECT packet, as `mqtt_msg_connect` (mqtt/mqtt_msg.c) sets it step by step in
-- the buffer.
use esp_mqtt.Base.{
  ℕ, ◌+◌, ◌-◌, ◌*◌, ◌%◌, ◌<◌, ◌≡◌, refl, sym, ap, ◌∙◌, bit_and, bit_or, Option, none, some, [], ◌∷◌,
  ◌++◌, Bytes, Bool, true, false, not, ◌&&◌, arith, length, length-set, get_or, set, take, drop,
  set-take, get_or-take, get_or-drop, if◌then◌else◌, ◌==◌, all_below, all_below_sound, low_two,
  ==_iff, Bool-cases, inl, inr,
}
use esp_mqtt.Msg.{Connection, ConnectInfo}
use esp_mqtt.Msg.Build.{Builder}
use esp_mqtt.Msg.Stage.{Stage}
use esp_mqtt.Msg.Connect.{
  Protocol, v31, v311, variable_header, flags_at, or_flag, or_flag_if, flag_will, flag_will_retain,
  flag_clean_session, flag_username, flag_password,
}

drop-set :
    (p : Protocol) (xs : Bytes) (v : ℕ)
    → drop 3 (set xs (flags_at p) v) ≡ set (drop 3 xs) (flags_at p - 3) v
drop-set v31 [] v = refl
drop-set v31 (x ∷ []) v = refl
drop-set v31 (x ∷ y ∷ []) v = refl
drop-set v31 (x ∷ y ∷ z ∷ xs) v = refl
drop-set v311 [] v = refl
drop-set v311 (x ∷ []) v = refl
drop-set v311 (x ∷ y ∷ []) v = refl
drop-set v311 (x ∷ y ∷ z ∷ xs) v = refl

set_flags :
    (p : Protocol) (f g k : ℕ) (tail : Bytes)
    → set (variable_header p f k ++ tail) (flags_at p - 3) g ≡ variable_header p g k ++ tail
set_flags v31 f g k tail = refl
set_flags v311 f g k tail = refl

get_flags :
    (p : Protocol) (f k : ℕ) (tail : Bytes)
    → get_or (variable_header p f k ++ tail) (flags_at p - 3) 0 ≡ f
get_flags v31 f k tail = refl
get_flags v311 f k tail = refl

flag_from_body :
    (p : Protocol) (xs : Bytes) → get_or (drop 3 xs) (flags_at p - 3) 0 ≡ get_or xs (flags_at p) 0
flag_from_body v31 xs = get_or-drop 3 xs 9 0
flag_from_body v311 xs = get_or-drop 3 xs 7 0

length_flags :
    (p : Protocol) (f g k : ℕ) (tail : Bytes)
    → length (variable_header p f k ++ tail) ≡ length (variable_header p g k ++ tail)
length_flags v31 f g k tail = refl
length_flags v311 f g k tail = refl

flags_inside :
    (p : Protocol) (f k : ℕ) (tail : Bytes)
    → flags_at p < length (variable_header p f k ++ tail) + 3
flags_inside v31 f k tail = omega arith
flags_inside v311 f k tail = omega arith

-- The flag byte changes in place, and nothing else does.
pub or_flag-Stage :
    (p : Protocol) (c : Connection) (f k flag : ℕ) (tail : Bytes) (b : Builder)
    → Stage c (variable_header p f k ++ tail) b.conn
    → Stage c (variable_header p (bit_or f flag % 256) k ++ tail) (or_flag p flag b).conn
unfolding or_flag
or_flag-Stage p c f k flag tail b s = record {
  opened = omega (arith, s.opened, length-set b.conn.buffer at new);
  limit = s.limit;
  count = s.count ∙ ap (λ l. l + 3) (length_flags p f now k tail);
  holds =
      ap (drop 3) (set-take n b.conn.buffer at new)
      ∙ drop-set p (take n b.conn.buffer) new
      ∙ ap (λ w. set w (at - 3) new) s.holds
      ∙ set_flags p f new k tail
      ∙ ap (λ g. variable_header p g k ++ tail) is_now;
}
  where
    n : ℕ
    n = b.conn.message.length

    at : ℕ
    at = flags_at p

    new : ℕ
    new = bit_or (get_or b.conn.buffer at 0) flag % 256

    now : ℕ
    now = bit_or f flag % 256

    inside : at < n
    inside = omega (arith, s.count, flags_inside p f k tail)

    old : get_or b.conn.buffer at 0 ≡ f
    old =
        sym (get_or-take n b.conn.buffer at 0 inside)
        ∙ sym (flag_from_body p (take n b.conn.buffer))
        ∙ ap (λ w. get_or w (at - 3) 0) s.holds
        ∙ get_flags p f k tail

    is_now : new ≡ now
    is_now = ap (λ g. bit_or g flag % 256) old

-- The flags in the order in which the builder sets them.
abbrev pub with_flag : ℕ → ℕ → ℕ
with_flag f flag = bit_or f flag % 256

abbrev pub flag_if : Bool → ℕ → ℕ → ℕ
flag_if on f flag = if on then with_flag f flag else f

abbrev pub with_flag_if : ℕ → ℕ → ℕ → ℕ
with_flag_if set f flag = flag_if (not (set == 0)) f flag

pub or_flag_if-Stage :
    (p : Protocol) (c : Connection) (f k set flag : ℕ) (tail : Bytes) (b : Builder)
    → Stage c (variable_header p f k ++ tail) b.conn
    → Stage c (variable_header p (with_flag_if set f flag) k ++ tail) (or_flag_if p set flag b).conn
unfolding or_flag_if
or_flag_if-Stage p c f k set flag tail b s = elim (Bool-cases (set == 0)) [
  | inl off ↦ rw off s
  | inr on ↦ rw on (or_flag-Stage p c f k flag tail b s)
]

-- A string that is there and is not empty.
abbrev pub present : Option Bytes → Bool
present none = false
present (some []) = false
present (some (t ∷ ts)) = true

-- The flags of a will.
abbrev pub will_if : Bool → ℕ → ℕ → ℕ → ℕ
will_if on retain qos f =
    if on
    then with_flag (with_flag_if retain (with_flag f flag_will) flag_will_retain)
        (bit_and qos 3 * 8)
    else f

-- All flags, as the builder comes to them.
abbrev pub flags_set : ConnectInfo → ℕ
flags_set info =
    let clean = with_flag_if info.clean_session 0 flag_clean_session in
    let will = will_if (present info.will_topic) info.will_retain info.will_qos clean in
    flag_if (present info.password) (flag_if (present info.username) will flag_username)
      flag_password

-- The flag byte of the protocol, bit by bit.
abbrev pub bit : Bool → ℕ → ℕ
bit on value = if on then value else 0

abbrev pub sum_of : Bool → Bool → Bool → ℕ → Bool → Bool → ℕ
sum_of clean will retain qos username password =
    bit clean 2 + bit will (4 + qos * 8 + bit retain 32) + bit password 64 + bit username 128

abbrev pub flag_byte : ConnectInfo → ℕ
flag_byte info =
    sum_of (not (info.clean_session == 0)) (present info.will_topic) (not (info.will_retain == 0))
      (info.will_qos % 4) (present info.username) (present info.password)

abbrev chain : Bool → Bool → Bool → ℕ → Bool → Bool → ℕ
chain clean will retain q username password =
    let c = flag_if clean 0 2 in
    let w = if will then with_flag (flag_if retain (with_flag c 4) 32) (q * 8) else c in
    flag_if password (flag_if username w 128) 64

agrees : Bool → Bool → Bool → Bool → Bool → ℕ → Bool
agrees clean will retain username password q =
    chain clean will retain q username password == sum_of clean will retain q username password

abbrev both : (Bool → Bool) → Bool
both p = p true && p false

both_sound : (p : Bool → Bool) (b : Bool) → both p ≡ true → p b ≡ true
both_sound p true h = ground arith
both_sound p false h = ground arith

chain_table :
    both (λ c. both (λ w. both (λ r. both (λ u. both (λ p. all_below 4 (agrees c w r u p))))))
    ≡ true
unfolding all_below agrees
chain_table = refl

chain_sum :
    (clean will retain username password : Bool) (q : ℕ)
    → q < 4
    → chain clean will retain q username password ≡ sum_of clean will retain q username password
unfolding agrees
chain_sum clean will retain username password q h =
    let t1 =
      both_sound
        (λ x. both (λ w. both (λ r. both (λ u. both (λ p. all_below 4 (agrees x w r u p)))))) clean
        chain_table in
    let t2 =
      both_sound (λ x. both (λ r. both (λ u. both (λ p. all_below 4 (agrees clean x r u p))))) will
        t1 in
    let t3 =
      both_sound (λ x. both (λ u. both (λ p. all_below 4 (agrees clean will x u p)))) retain t2 in
    let t4 = both_sound (λ x. both (λ p. all_below 4 (agrees clean will retain x p))) username t3 in
    let t5 = both_sound (λ x. all_below 4 (agrees clean will retain username x)) password t4 in
    (==_iff _ _).0 (all_below_sound 4 (agrees clean will retain username password) q h t5)

pub flags_set-flag_byte :
    (info : ConnectInfo) → info.will_qos < 256 → flags_set info ≡ flag_byte info
flags_set-flag_byte info small =
    ap
      (λ q.
        chain (not (info.clean_session == 0)) (present info.will_topic)
          (not (info.will_retain == 0)) q (present info.username) (present info.password))
      (low_two info.will_qos small)
    ∙ chain_sum (not (info.clean_session == 0)) (present info.will_topic)
        (not (info.will_retain == 0)) (present info.username) (present info.password)
        (info.will_qos % 4) (omega arith)

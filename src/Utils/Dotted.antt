-- ===== src/Utils/Dotted.antt =====
-- `UTILS_StrToIP` of mqtt/utils.c reads an address in dotted decimal notation.
use esp_mqtt.Base.{
  ℕ, suc, ◌+◌, ◌-◌, ◌*◌, ◌/◌, ◌%◌, ◌<◌, ◌≡◌, refl, ap, ◌∙◌, Bool, true, false, some, [], ◌∷◌, ◌++◌,
  arith, Bytes, set, ltb, leb, ◌==◌, if◌then◌else◌,
}
use native.Mathlib.Decide.{dec_lt}
use esp_mqtt.Utils.{is_digit, octet, octets, str_to_ip}

-- A byte in decimal notation, with no zero in front.
abbrev pub decimal : ℕ → Bytes
decimal n =
    if ltb n 10
    then (48 + n) ∷ []
    else if ltb n 100
    then (48 + n / 10) ∷ (48 + n % 10) ∷ []
    else (48 + n / 100) ∷ (48 + n / 10 % 10) ∷ (48 + n % 10) ∷ []

abbrev pub dotted : ℕ → ℕ → ℕ → ℕ → Bytes
dotted a b c d =
    decimal a ++ (b'.' ∷ (decimal b ++ (b'.' ∷ (decimal c ++ (b'.' ∷ (decimal d ++ []))))))

octet_digit :
    (last : Bool) (d n : ℕ) (cs : Bytes)
    → d < 10
    → octet last ((48 + d) ∷ cs) n ≡ octet last cs (n * 10 + d)
unfolding octet
octet_digit last d n cs h =
    let digit : is_digit (48 + d) ≡ true = ground arith in
    let value : n * 10 + (48 + d - 48) ≡ n * 10 + d = omega arith in rw (digit, value) refl

octet-decimal :
    (last : Bool) (n : ℕ) (cs : Bytes) → n < 256 → octet last (decimal n ++ cs) 0 ≡ octet last cs n
octet-decimal last n cs h = elim (dec_lt n 10) [
  | yes one ↦
      let short : ltb n 10 ≡ true = ground arith in
      rw short (octet_digit last n 0 cs one ∙ ap (octet last cs) (omega arith))
  | no more ↦
      let long : ltb n 10 ≡ false = ground arith in
      elim (dec_lt n 100) [
        | yes two ↦
            let middle : ltb n 100 ≡ true = ground arith in
            rw (long, middle)
              (octet_digit last (n / 10) 0 ((48 + n % 10) ∷ cs) (omega arith)
                ∙ octet_digit last (n % 10) (0 * 10 + n / 10) cs (omega arith)
                ∙ ap (octet last cs) (omega arith))
        | no three ↦
            let longest : ltb n 100 ≡ false = ground arith in
            rw (long, longest)
              (octet_digit last (n / 100) 0 ((48 + n / 10 % 10) ∷ (48 + n % 10) ∷ cs) (omega arith)
                ∙ octet_digit last (n / 10 % 10) (0 * 10 + n / 100) ((48 + n % 10) ∷ cs)
                    (omega arith)
                ∙ octet_digit last (n % 10) ((0 * 10 + n / 100) * 10 + n / 10 % 10) cs (omega arith)
                ∙ ap (octet last cs) (omega arith))
      ]
]

dot_ends : (n : ℕ) (cs : Bytes) → octet false (b'.' ∷ cs) n ≡ some (n, cs)
unfolding octet
dot_ends n cs = refl

string_ends : (n : ℕ) → octet true [] n ≡ some (n, [])
unfolding octet
string_ends n = refl

octets_step :
    (k i n : ℕ) (str rest ip : Bytes)
    → octet (i == 3) str 0 ≡ some (n, rest)
    → n < 256
    → octets (suc k) i str ip ≡ octets k (i + 1) rest (set ip i n)
unfolding octets
octets_step k i n str rest ip e h =
    let small : leb 256 n ≡ false = ground arith in rw (octets, e, small) refl

octets_end : (i : ℕ) (str ip : Bytes) → octets 0 i str ip ≡ (true, ip)
unfolding octets
octets_end i str ip = refl

-- `UTILS_StrToIP` of four bytes in dotted decimal notation returns 1 and stores the four bytes.
pub str_to_ip-dotted :
    (a b c d : ℕ) (w x y z : ℕ)
    → a < 256
    → b < 256
    → c < 256
    → d < 256
    → str_to_ip (dotted a b c d) (w ∷ x ∷ y ∷ z ∷ []) ≡ (true, a ∷ b ∷ c ∷ d ∷ [])
unfolding str_to_ip
str_to_ip-dotted a b c d w x y z ha hb hc hd =
    octets_step 3 0 a (dotted a b c d) rest_a (w ∷ x ∷ y ∷ z ∷ []) first ha
    ∙ octets_step 2 1 b rest_a rest_b (a ∷ x ∷ y ∷ z ∷ []) second hb
    ∙ octets_step 1 2 c rest_b rest_c (a ∷ b ∷ y ∷ z ∷ []) third hc
    ∙ octets_step 0 3 d rest_c [] (a ∷ b ∷ c ∷ z ∷ []) fourth hd
    ∙ octets_end 4 [] (a ∷ b ∷ c ∷ d ∷ [])
  where
    rest_c : Bytes
    rest_c = decimal d ++ []

    rest_b : Bytes
    rest_b = decimal c ++ (b'.' ∷ rest_c)

    rest_a : Bytes
    rest_a = decimal b ++ (b'.' ∷ rest_b)

    first : octet false (decimal a ++ (b'.' ∷ rest_a)) 0 ≡ some (a, rest_a)
    first = octet-decimal false a (b'.' ∷ rest_a) ha ∙ dot_ends a rest_a

    second : octet false rest_a 0 ≡ some (b, rest_b)
    second = octet-decimal false b (b'.' ∷ rest_b) hb ∙ dot_ends b rest_b

    third : octet false rest_b 0 ≡ some (c, rest_c)
    third = octet-decimal false c (b'.' ∷ rest_c) hc ∙ dot_ends c rest_c

    fourth : octet true rest_c 0 ≡ some (d, [])
    fourth = octet-decimal true d [] hd ∙ string_ends d

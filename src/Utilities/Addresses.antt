-- ===== src/Utilities/Addresses.antt =====
-- An address printed from its octets is read back.
use microservice_common.Base.{
  ℕ, ◌+◌, ◌-◌, ◌*◌, ◌/◌, ◌%◌, ◌^◌, ◌<◌, ◌≡◌, refl, ap, ◌∙◌, true, false, List, [], ◌∷◌, ◌++◌, none,
  some, map, if◌then◌else◌, arith, All, is_empty,
}
use microservice_common.Base.Decimal.{
  digits, value_onto, value_onto-digits, digits-All, is_empty-digits,
}
use microservice_common.Base.Int.{pos}
use microservice_common.Base.Words.{to_uint32}
use microservice_common.Common.Outcome.{returned, ◌>>=◌}
use microservice_common.Utilities.{
  char_0, dot, is_digit, leading_number, stoi, cut, next_part, octet, next_text, digit_codes,
  ip_address_to_octets, ip_address_from_octets,
}

abbrev codes_of : List ℕ → List ℕ
codes_of ds = map (λ d. d + char_0) ds

leading_number-codes_of :
    (n : ℕ) (ds : List ℕ) → All (λ d. d < 10) ds → leading_number n (codes_of ds) ≡ value_onto n ds
leading_number-codes_of n [] h = refl
leading_number-codes_of n (d ∷ ds) h =
    let again : n * 10 + (d + char_0 - char_0) ≡ n * 10 + d = omega arith in
    let digit : is_digit (d + char_0) ≡ true = ground (arith, h.0) in
    ap (λ b. if b then leading_number (n * 10 + (d + char_0 - char_0)) (codes_of ds) else n) digit
    ∙ ap (λ k. leading_number k (codes_of ds)) again
    ∙ leading_number-codes_of (n * 10 + d) ds h.1

cut-codes_of_end :
    (ds : List ℕ) → All (λ d. d < 10) ds → cut dot (codes_of ds) ≡ (codes_of ds, none)
cut-codes_of_end [] h = refl
cut-codes_of_end (d ∷ ds) h = ground (arith, h.0, cut-codes_of_end ds h.1)

cut-codes_of :
    (ds rest : List ℕ)
    → All (λ d. d < 10) ds
    → cut dot (codes_of ds ++ (dot ∷ rest)) ≡ (codes_of ds, some rest)
cut-codes_of [] rest h = refl
cut-codes_of (d ∷ ds) rest h = ground (arith, h.0, cut-codes_of ds rest h.1)

number_below-codes_of :
    (ds : List ℕ)
    → is_empty ds ≡ false
    → All (λ d. d < 10) ds
    → value_onto 0 ds < 2 ^ 31
    → stoi (codes_of ds) ≡ returned (pos (value_onto 0 ds))
unfolding stoi
number_below-codes_of [] e h small = cc
number_below-codes_of (d ∷ ds) e h small = ground (arith, h.0, leading_number-codes_of 0 (d ∷ ds) h)

stoi-digit_codes : (n : ℕ) → n < 2 ^ 8 → stoi (digit_codes n) ≡ returned (pos n)
stoi-digit_codes n small =
    number_below-codes_of (digits n) (is_empty-digits n) (digits-All n)
      (omega (arith, value_onto-digits n))
    ∙ ap (λ k. returned (pos k)) (value_onto-digits n)

octet_before :
    (n : ℕ) (rest : List ℕ) → n < 2 ^ 8 → octet (digit_codes n ++ (dot ∷ rest)) ≡ returned n
unfolding octet
octet_before n rest small =
    ap (λ r. stoi r.0 >>= λ k. returned (to_uint32 k % 2 ^ 8))
      (cut-codes_of (digits n) rest (digits-All n))
    ∙ ap (λ o. o >>= λ k. returned (to_uint32 k % 2 ^ 8)) (stoi-digit_codes n small)
    ∙ ap returned (omega arith)

octet_end : (n : ℕ) → n < 2 ^ 8 → octet (digit_codes n) ≡ returned n
unfolding octet
octet_end n small =
    ap (λ r. stoi r.0 >>= λ k. returned (to_uint32 k % 2 ^ 8))
      (cut-codes_of_end (digits n) (digits-All n))
    ∙ ap (λ o. o >>= λ k. returned (to_uint32 k % 2 ^ 8)) (stoi-digit_codes n small)
    ∙ ap returned (omega arith)

next_text_before : (n : ℕ) (rest : List ℕ) → next_text (digit_codes n ++ (dot ∷ rest)) ≡ rest
unfolding next_text
next_text_before n rest =
    ap (λ r. next_part (digit_codes n ++ (dot ∷ rest)) r.1)
      (cut-codes_of (digits n) rest (digits-All n))

read_four :
    (s1 s2 s3 s4 : List ℕ) (a b c d : ℕ)
    → octet s1 ≡ returned a
    → next_text s1 ≡ s2
    → octet s2 ≡ returned b
    → next_text s2 ≡ s3
    → octet s3 ≡ returned c
    → next_text s3 ≡ s4
    → octet s4 ≡ returned d
    → ip_address_to_octets s1 ≡ returned (a * 2 ^ 24 + b * 2 ^ 16 + c * 2 ^ 8 + d)
unfolding ip_address_to_octets
read_four s1 s2 s3 s4 a b c d e1 n1 e2 n2 e3 n3 e4 = rw (e1, n1, e2, n2, e3, n3, e4) refl

-- Four octets, printed with dots between, are read.
four_octets :
    (a b c d : ℕ)
    → a < 2 ^ 8
    → b < 2 ^ 8
    → c < 2 ^ 8
    → d < 2 ^ 8
    → ip_address_to_octets (
        digit_codes a
        ++ (dot ∷ (digit_codes b ++ (dot ∷ (digit_codes c ++ (dot ∷ digit_codes d))))))
      ≡ returned (a * 2 ^ 24 + b * 2 ^ 16 + c * 2 ^ 8 + d)
four_octets a b c d ha hb hc hd =
    let three = digit_codes c ++ (dot ∷ digit_codes d) in
    let two = digit_codes b ++ (dot ∷ three) in
    read_four (digit_codes a ++ (dot ∷ two)) two three (digit_codes d) a b c d
      (octet_before a two ha) (next_text_before a two) (octet_before b three hb)
      (next_text_before b three) (octet_before c (digit_codes d) hc)
      (next_text_before c (digit_codes d)) (octet_end d hd)

-- An address of 32 bits that is printed is read back.
pub ip_address_to_octets-ip_address_from_octets :
    (w : ℕ) → w < 2 ^ 32 → ip_address_to_octets (ip_address_from_octets w) ≡ returned w
unfolding ip_address_from_octets
ip_address_to_octets-ip_address_from_octets w h =
    four_octets (w / 2 ^ 24 % 2 ^ 8) (w / 2 ^ 16 % 2 ^ 8) (w / 2 ^ 8 % 2 ^ 8) (w % 2 ^ 8)
      (omega arith) (omega arith) (omega arith) (omega arith)
    ∙ ap returned (omega arith)

-- ===== src/Utilities.antt =====
-- common/ms_common_utils.h: addresses and texts. A text is the list of the codes of its characters.
pub mod Addresses
pub mod Texts
use microservice_common.Base.{
  ℕ, zero, suc, ◌+◌, ◌-◌, ◌*◌, ◌/◌, ◌%◌, ◌^◌, Bool, true, false, ◌&&◌, ◌||◌, List, [], ◌∷◌, ◌++◌,
  Option, none, some, map, ltb, leb, ◌==◌, if◌then◌else◌,
}
use microservice_common.Base.Decimal.{digits}
use microservice_common.Base.Int.{ℤ, pos, negsuc}
use microservice_common.Base.Words.{to_uint32}
use microservice_common.Common.Outcome.{Outcome, returned, aborted, ◌>>=◌}

abbrev pub char_0 : ℕ
char_0 = 48

abbrev pub dot : ℕ
dot = 46

abbrev pub is_digit : ℕ → Bool
is_digit c = leb char_0 c && leb c 57

abbrev pub is_letter : ℕ → Bool
is_letter c = (leb 97 c && leb c 122) || (leb 65 c && leb c 90)

abbrev pub is_space : ℕ → Bool
is_space c = c == 32 || (leb 9 c && leb c 13)

abbrev pub skip_spaces : List ℕ → List ℕ
skip_spaces [] = []
skip_spaces (c ∷ cs) = let rest = skip_spaces cs in if is_space c then rest else c ∷ cs

abbrev pub leading_number : ℕ → List ℕ → ℕ
leading_number n [] = n
leading_number n (c ∷ cs) =
    let rest = leading_number (n * 10 + (c - char_0)) cs in if is_digit c then rest else n

-- The number of the leading digits, if there are any and it is below a bound.
abbrev pub number_below : ℕ → List ℕ → Outcome ℕ
number_below bound [] = aborted
number_below bound (c ∷ cs) =
    if is_digit c && ltb (leading_number 0 (c ∷ cs)) bound
    then returned (leading_number 0 (c ∷ cs))
    else aborted

abbrev pub minus : ℕ → ℤ
minus zero = pos 0
minus (suc n) = negsuc n

abbrev pub signed_number : List ℕ → Outcome ℤ
signed_number [] = aborted
signed_number (c ∷ cs) =
    if c == 45
    then (number_below (2 ^ 31 + 1) cs >>= λ n. returned (minus n))
    else (number_below (2 ^ 31) (if c == 43 then cs else c ∷ cs) >>= λ n. returned (pos n))

-- `std::stoi`, which throws where there is no number or it does not fit an int; nothing catches that.
unfoldable pub stoi : List ℕ → Outcome ℤ
stoi s = signed_number (skip_spaces s)

-- What stands before the first `sep`, and after it if there is one.
abbrev pub cut : ℕ → List ℕ → List ℕ × Option (List ℕ)
cut sep [] = ([], none)
cut sep (c ∷ cs) =
    let (before, after) = cut sep cs in if c == sep then ([], some cs) else (c ∷ before, after)

-- The text that the next octet is looked for in: where no dot is left, the same again.
abbrev pub next_part : List ℕ → Option (List ℕ) → List ℕ
next_part s none = s
next_part s (some rest) = rest

-- A number assigned to a uint8_t.
unfoldable pub octet : List ℕ → Outcome ℕ
unfolding stoi
octet s = stoi (cut dot s).0 >>= λ n. returned (to_uint32 n % 2 ^ 8)

unfoldable pub next_text : List ℕ → List ℕ
next_text s = next_part s (cut dot s).1

unfoldable pub ip_address_to_octets : List ℕ → Outcome ℕ
ip_address_to_octets ip = octet ip >>= λ a. octet (next_text ip) >>= λ b.
    octet (next_text (next_text ip)) >>= λ c. octet (next_text (next_text (next_text ip))) >>= λ d.
    returned (a * 2 ^ 24 + b * 2 ^ 16 + c * 2 ^ 8 + d)

abbrev pub digit_codes : ℕ → List ℕ
digit_codes n = map (λ d. d + char_0) (digits n)

unfoldable pub ip_address_from_octets : ℕ → List ℕ
ip_address_from_octets w =
    digit_codes (w / 2 ^ 24 % 2 ^ 8)
    ++ (dot
        ∷ (digit_codes (w / 2 ^ 16 % 2 ^ 8)
            ++ (dot ∷ (digit_codes (w / 2 ^ 8 % 2 ^ 8) ++ (dot ∷ digit_codes (w % 2 ^ 8))))))

-- cutBySimbol: a text without the symbol is all in the second part.
abbrev pub cut_parts : List ℕ → List ℕ × Option (List ℕ) → List ℕ × List ℕ
cut_parts s (before, none) = ([], s)
cut_parts s (before, some after) = (before, after)

unfoldable pub cut_by_simbol : ℕ → List ℕ → List ℕ × List ℕ
cut_by_simbol simb s = cut_parts s (cut simb s)

abbrev pub filter_sym : ℕ → ℕ
filter_sym c = if is_digit c || is_letter c then c else 95

unfoldable pub filter_by_digit_and_number : List ℕ → List ℕ
filter_by_digit_and_number s = map filter_sym s

-- ===== src/Shell/Pieces.antt =====
-- A payload that comes in two pieces.
use microservice_common.Base.{
  ℕ, zero, suc, ◌+◌, ◌<◌, ◌≤◌, ◌≡◌, ap, ◌∙◌, List, [], ◌∷◌, ◌++◌, Option, some, length, arith,
  length-append,
}
use microservice_common.Common.Outcome.{returned}
use microservice_common.Shell.Framing.{take, drop, append_pieces}
use microservice_common.Shell.Frames.{take-length-append}

-- A turn that reads no more than is left.
append_pieces-piece :
    (size read : ℕ) (buf text bs : List ℕ) (rest : List (Option (List ℕ)))
    → read < size
    → read + length bs ≤ size
    → append_pieces size read buf text (some bs ∷ rest)
      ≡ append_pieces size
          (read + length bs)
          (bs ++ drop (length bs) buf)
          (text ++ take (read + length bs) (bs ++ drop (length bs) buf))
          rest
append_pieces-piece size zero buf text bs rest less fits = ground arith
append_pieces-piece size (suc read) buf text bs rest less fits = ground arith

append_pieces-end :
    (size read : ℕ) (buf text : List ℕ)
    → size ≤ read
    → append_pieces size read buf text [] ≡ returned (some text)
append_pieces-end size read buf text h = ground arith

length-take : (n : ℕ) (xs : List ℕ) → n ≤ length xs → length (take n xs) ≡ n
length-take zero xs h = omega arith
length-take (suc n) [] h = omega arith
length-take (suc n) (x ∷ xs) h = omega (arith, length-take n xs (omega arith))

length-drop : (n : ℕ) (xs : List ℕ) → n ≤ length xs → length (drop n xs) + n ≡ length xs
length-drop zero xs h = omega arith
length-drop (suc n) [] h = omega arith
length-drop (suc n) (x ∷ xs) h = omega (arith, length-drop n xs (omega arith))

zero_plus : (n : ℕ) → 0 + n ≡ n
zero_plus n = omega arith

-- The array keeps its length.
length-overwritten :
    (bs buf : List ℕ) → length bs ≤ length buf → length (bs ++ drop (length bs) buf) ≡ length buf
length-overwritten bs buf h =
    omega (arith, length-append bs (drop (length bs) buf), length-drop (length bs) buf h)

-- The loop over a payload that comes in one piece gives it; in two pieces that are not empty, it
-- gives a text that is longer than the message by the length of the first piece.
pub append_pieces-two :
    (xs ys buf : List ℕ)
    → 0 < length xs
    → 0 < length ys
    → length buf ≡ length xs + length ys
    → (append_pieces (length xs) 0 buf [] (some xs ∷ []) ≡ returned (some xs))
      × (text : List ℕ) × (append_pieces (length xs + length ys) 0 buf [] (some xs ∷ some ys ∷ [])
          ≡ returned (some text))
      × (length text ≡ length xs + (length xs + length ys))
append_pieces-two xs ys buf hx hy hb =
    let size = length xs + length ys in
    let buf2 = xs ++ drop (length xs) buf in
    let buf3 = ys ++ drop (length ys) buf2 in
    let text = xs ++ take size buf3 in
    let long2 = length-overwritten xs buf (omega arith) in
    let long3 = length-overwritten ys buf2 (omega (arith, long2)) in
    let first : take (0 + length xs) buf2 ≡ xs =
      ap (λ n. take n buf2) (zero_plus (length xs))
      ∙ take-length-append xs (drop (length xs) buf) in
    (
      append_pieces-piece (length xs) 0 buf [] xs [] hx (omega arith)
          ∙ append_pieces-end (length xs) (0 + length xs) buf2 _ (omega arith)
          ∙ ap (λ t. returned (some t)) first,
      text,
      append_pieces-piece size 0 buf [] xs (some ys ∷ []) (omega arith) (omega arith)
          ∙ ap (λ t. append_pieces size (0 + length xs) buf2 t (some ys ∷ [])) first
          ∙ ap (λ n. append_pieces size n buf2 xs (some ys ∷ [])) (zero_plus (length xs))
          ∙ append_pieces-piece size (length xs) buf2 xs ys [] (omega arith) (omega arith)
          ∙ append_pieces-end size size buf3 text (omega arith),
      omega (
        arith,
        length-append xs (take size buf3),
        length-take size buf3 (omega (arith, long2, long3)),
      ),
    )

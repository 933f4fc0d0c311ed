-- ===== src/Shell/Framing.antt =====
-- communication/shell.cpp: messages with their size before them, in client mode.
use microservice_common.Base.{
  ℕ, zero, suc, ◌+◌, ◌*◌, ◌/◌, ◌%◌, ◌^◌, List, [], ◌∷◌, ◌++◌, Option, none, some, length, leb, ltb,
  ◌&&◌, if◌then◌else◌,
}
use microservice_common.Common.Outcome.{Outcome, returned, aborted, undefined}

abbrev pub take {ℓ} : {A : Type ℓ} → ℕ → List A → List A
take zero xs = []
take (suc n) [] = []
take (suc n) (x ∷ xs) = x ∷ take n xs

abbrev pub drop {ℓ} : {A : Type ℓ} → ℕ → List A → List A
drop zero xs = xs
drop (suc n) [] = []
drop (suc n) (x ∷ xs) = drop n xs

-- The stream to the peer and back, over one descriptor: send with the count it gives, and recv of so
-- many bytes at most, `none` standing for -1. An array of `stack` bytes or more finds no room on the
-- stack.
pub record Socket : Type 1 where
  pub Stream : Type 0
  pub stack : ℕ
  pub send : List ℕ → Stream → Stream
  pub recv : ℕ → Stream → Stream × Option (List ℕ)

-- The four bytes of an int of this value, on a little-endian machine, and what they stand for. Bytes
-- that are not there leave the zeros of `int messageSize = 0`.
abbrev pub int_bytes : ℕ → List ℕ
int_bytes n = n % 256 ∷ n / 256 % 256 ∷ n / 65536 % 256 ∷ n / 16777216 % 256 ∷ []

abbrev pub bytes_value : ℕ → List ℕ → ℕ
bytes_value weight [] = 0
bytes_value weight (b ∷ bs) = b * weight + bytes_value (weight * 256) bs

abbrev pub size_of : Option (List ℕ) → ℕ
size_of none = 0
size_of (some bs) = bytes_value 1 bs

module _ (s : Socket) where
  -- A partial write is logged only.
  unfoldable pub send_with_size : List ℕ → s.Stream → s.Stream
  send_with_size msg t = s.send msg (s.send (int_bytes (length msg)) t)

  abbrev pub payload_text : s.Stream × Option (List ℕ) → Outcome (List ℕ × s.Stream)
  payload_text (t, none) = aborted
  payload_text (t, some bs) = returned (bs, t)

  abbrev pub receive_payload : ℕ → s.Stream → Outcome (List ℕ × s.Stream)
  receive_payload size t =
      if ltb size (2 ^ 31) && ltb size s.stack then payload_text (s.recv size t) else undefined

  -- A size with the sign bit set makes an array of a negative length; a text of -1 characters throws.
  unfoldable pub receive_with_size : s.Stream → Outcome (List ℕ × s.Stream)
  receive_with_size t = let (t2, r) = s.recv 4 t in receive_payload (size_of r) t2

-- The loop over the payload in threadAsyncClientModeRequestsWithSize: `read` is readedBytesCount, `buf`
-- the array of messageSize bytes, `text` what was appended so far, and the list what recv answers, one
-- after another. Each turn appends as many bytes as were read in all. `none` is the result where the
-- loop goes on. One byte read less, for -1, before any byte was read makes a text of -1 characters,
-- which throws.
abbrev pub append_pieces :
    ℕ → ℕ → List ℕ → List ℕ → List (Option (List ℕ)) → Outcome (Option (List ℕ))
append_pieces size read buf text [] = returned (if leb size read then some text else none)
append_pieces size zero buf text (none ∷ rest) =
    if leb size zero then returned (some text) else aborted
append_pieces size (suc read) buf text (none ∷ rest) =
    let next = append_pieces size read buf (text ++ take read buf) rest in
    if leb size (suc read) then returned (some text) else next
append_pieces size read buf text (some bs ∷ rest) =
    let buf2 = bs ++ drop (length bs) buf in
    let next =
      append_pieces size (read + length bs) buf2 (text ++ take (read + length bs) buf2) rest in
    if leb size read
    then returned (some text)
    else (if ltb size (read + length bs) then undefined else next)

-- ===== src/Shell/Frames.antt =====
-- Messages with their size come out as they were sent.
use microservice_common.Base.{
  ℕ, zero, suc, ◌^◌, ◌<◌, ◌≤◌, ◌&&◌, ◌≡◌, refl, ap, sym, ◌∙◌, true, List, [], ◌∷◌, ◌++◌, some,
  length, ltb, if◌then◌else◌, arith, append_nil, append_assoc, All,
}
use microservice_common.Common.Outcome.{Outcome, returned, undefined, ◌>>=◌}
use microservice_common.Shell.Framing.{
  take, drop, Socket, int_bytes, bytes_value, size_of, send_with_size, payload_text,
  receive_payload, receive_with_size,
}

-- A stream that carries the bytes in order. `pending` are those sent and not received, of which `given`
-- tells how many a recv hands over: as many as it is asked for, or fewer, but one at least if there
-- are any.
pub record Carries (s : Socket) : Type 0 where
  pub pending : s.Stream → List ℕ
  pub given : ℕ → s.Stream → ℕ
  pub given-asked : (n : ℕ) (t : s.Stream) → given n t ≤ n
  pub given-pending : (n : ℕ) (t : s.Stream) → given n t ≤ length (pending t)
  pub given-some : (n : ℕ) (t : s.Stream) → 0 < n → 0 < length (pending t) → 0 < given n t
  pub send_lem : (bs : List ℕ) (t : s.Stream) → pending (s.send bs t) ≡ pending t ++ bs
  pub recv_lem : (n : ℕ) (t : s.Stream) → (s.recv n t).1 ≡ some (take (given n t) (pending t))
  pub recv_rest : (n : ℕ) (t : s.Stream) → pending (s.recv n t).0 ≡ drop (given n t) (pending t)

pub take-length-append : (xs ys : List ℕ) → take (length xs) (xs ++ ys) ≡ xs
take-length-append [] ys = refl
take-length-append (x ∷ xs) ys = ap (◌∷◌ x) (take-length-append xs ys)

bytes_value-int_bytes : (n : ℕ) → n < 2 ^ 31 → bytes_value 1 (int_bytes n) ≡ n
bytes_value-int_bytes n h = omega arith

room : (n stack : ℕ) → n < 2 ^ 31 → n < stack → (ltb n (2 ^ 31) && ltb n stack) ≡ true
room n stack h k = ground arith

take-append : (k : ℕ) (xs ys : List ℕ) → k ≤ length xs → take k (xs ++ ys) ≡ take k xs
take-append zero xs ys h = refl
take-append (suc k) [] ys h = absurd (omega (arith, h))
take-append (suc k) (x ∷ xs) ys h = ap (◌∷◌ x) (take-append k xs ys (omega arith))

drop-append : (k : ℕ) (xs ys : List ℕ) → k ≤ length xs → drop k (xs ++ ys) ≡ drop k xs ++ ys
drop-append zero xs ys h = refl
drop-append (suc k) [] ys h = absurd (omega (arith, h))
drop-append (suc k) (x ∷ xs) ys h = drop-append k xs ys (omega arith)

take-length : (xs : List ℕ) → take (length xs) xs ≡ xs
take-length [] = refl
take-length (x ∷ xs) = ap (◌∷◌ x) (take-length xs)

drop-length : (xs : List ℕ) → drop (length xs) xs ≡ []
drop-length [] = refl
drop-length (x ∷ xs) = drop-length xs

abbrev frame : List ℕ → List ℕ
frame msg = int_bytes (length msg) ++ msg

abbrev frames : List (List ℕ) → List ℕ
frames [] = []
frames (m ∷ ms) = frame m ++ frames ms

module _ (s : Socket) (w : Carries s) where
  -- The stream after the size of a message was received, and after the message.
  abbrev pub sized : s.Stream → s.Stream
  sized t = (s.recv 4 t).0

  abbrev pub received : List ℕ → s.Stream → s.Stream
  received msg t = (s.recv (length msg) (sized t)).0

  -- How many of a message's bytes one recv gives.
  abbrev pub given_of : List ℕ → s.Stream → ℕ
  given_of msg t = w.given (length msg) (sized t)

  -- Where the size comes whole, the message is cut to what one recv gives, and what is left of it is
  -- taken for the next size.
  pub receive_with_size-cut :
      (msg rest : List ℕ) (t : s.Stream)
      → length msg < 2 ^ 31
      → length msg < s.stack
      → w.given 4 t ≡ 4
      → w.pending t ≡ frame msg ++ rest
      → (receive_with_size s t ≡ returned (take (given_of msg t) msg, received msg t))
        × (w.pending (received msg t) ≡ drop (given_of msg t) msg ++ rest)
  unfolding receive_with_size
  receive_with_size-cut msg rest t small fits four h =
      let k = given_of msg t in
      let size : size_of (s.recv 4 t).1 ≡ length msg =
        ap size_of (
          w.recv_lem 4 t ∙ ap (λ n. some (take n (w.pending t))) four ∙ ap (λ p. some (take 4 p)) h)
        ∙ bytes_value-int_bytes (length msg) small in
      let left : w.pending (sized t) ≡ msg ++ rest =
        w.recv_rest 4 t ∙ ap (λ n. drop n (w.pending t)) four ∙ ap (drop 4) h in
      let got : (s.recv (length msg) (sized t)).1 ≡ some (take k msg) =
        w.recv_lem (length msg) (sized t)
        ∙ ap (λ p. some (take k p)) left
        ∙ ap some (take-append k msg rest (w.given-asked (length msg) (sized t))) in
      (
        ap (λ n. receive_payload s n (sized t)) size
            ∙ ap (λ b. if b then payload_text s (s.recv (length msg) (sized t)) else undefined)
                (room (length msg) s.stack small fits)
            ∙ ap (λ r. payload_text s (received msg t, r)) got,
        w.recv_rest (length msg) (sized t)
            ∙ ap (drop k) left
            ∙ drop-append k msg rest (w.given-asked (length msg) (sized t)),
      )

  abbrev pub send_all : List (List ℕ) → s.Stream → s.Stream
  send_all [] t = t
  send_all (m ∷ ms) t = send_all ms (send_with_size s m t)

  -- As many messages as there are elements in the list.
  abbrev pub receive_all {ℓ} : {A : Type ℓ} → List A → s.Stream → Outcome (List (List ℕ))
  receive_all [] t = returned []
  receive_all (x ∷ xs) t =
      receive_with_size s t >>= λ r. receive_all xs r.1 >>= λ rest. returned (r.0 ∷ rest)

  send_all-frames :
      (ms : List (List ℕ)) (t : s.Stream) → w.pending (send_all ms t) ≡ w.pending t ++ frames ms
  unfolding send_with_size
  send_all-frames [] t = sym (append_nil (w.pending t))
  send_all-frames (m ∷ ms) t =
      send_all-frames ms (send_with_size s m t)
      ∙ ap (λ p. p ++ frames ms)
          (w.send_lem m _
            ∙ ap (λ p. p ++ m) (w.send_lem (int_bytes (length m)) t)
            ∙ append_assoc (w.pending t) (int_bytes (length m)) m)
      ∙ append_assoc (w.pending t) (frame m) (frames ms)

  -- Each size comes whole, and each message but the last.
  abbrev pub AllGiven : List (List ℕ) → s.Stream → Type 0
  AllGiven [] t = w.given 4 t ≡ 4
  AllGiven (m ∷ ms) t = (w.given 4 t ≡ 4) × (given_of m t ≡ length m) × AllGiven ms (received m t)

  abbrev pub after_all : List (List ℕ) → s.Stream → s.Stream
  after_all [] t = t
  after_all (m ∷ ms) t = after_all ms (received m t)

  -- What fits into an int and on the stack.
  abbrev pub IsSendable : List ℕ → Type 0
  IsSendable msg = (length msg < 2 ^ 31) × (length msg < s.stack)

  receive_all-frames :
      (ms : List (List ℕ)) (last : List ℕ) (t : s.Stream)
      → All IsSendable ms
      → IsSendable last
      → AllGiven ms t
      → w.pending t ≡ frames (ms ++ last ∷ [])
      → receive_all (ms ++ last ∷ []) t
        ≡ returned (ms ++ take (given_of last (after_all ms t)) last ∷ [])
  receive_all-frames [] last t small fits whole h =
      let (e, left) = receive_with_size-cut last [] t fits.0 fits.1 whole h in
      ap (λ o. o >>= λ r. returned (r.0 ∷ [])) e
  receive_all-frames (m ∷ ms) last t small fits whole h =
      let (e, left) =
        receive_with_size-cut m (frames (ms ++ last ∷ [])) t small.0.0 small.0.1 whole.0 h in
      let rest : w.pending (received m t) ≡ frames (ms ++ last ∷ []) =
        left
        ∙ ap (λ k. drop k m ++ frames (ms ++ last ∷ [])) whole.1
        ∙ ap (λ xs. xs ++ frames (ms ++ last ∷ [])) (drop-length m) in
      ap (λ o. o >>= λ r. receive_all (ms ++ last ∷ []) r.1 >>= λ xs. returned (r.0 ∷ xs))
        (e
          ∙ ap (λ k. returned (take k m, received m t)) whole.1
          ∙ ap (λ xs. returned (xs, received m t)) (take-length m))
      ∙ ap (λ o. o >>= λ xs. returned (m ∷ xs))
          (receive_all-frames ms last (received m t) small.1 fits whole.2 rest)

  -- Over a stream that carries every byte in order and holds none yet, where one recv may give
  -- fewer bytes than it is asked for: messages that are shorter than 2 ^ 31 bytes and fit on the
  -- stack, and are sent with their sizes, are received one by one as they were sent, if recv gives
  -- each size whole and each message but the last; the last one is cut to what recv gives of it.
  pub receive_all-send_all :
      (ms : List (List ℕ)) (last : List ℕ) (t : s.Stream)
      → All IsSendable ms
      → IsSendable last
      → w.pending t ≡ []
      → AllGiven ms (send_all (ms ++ last ∷ []) t)
      → receive_all (ms ++ last ∷ []) (send_all (ms ++ last ∷ []) t)
        ≡ returned
            (ms ++ take (given_of last (after_all ms (send_all (ms ++ last ∷ []) t))) last ∷ [])
  receive_all-send_all ms last t small fits h whole =
      receive_all-frames ms last (send_all (ms ++ last ∷ []) t) small fits whole
        (send_all-frames (ms ++ last ∷ []) t ∙ ap (λ p. p ++ frames (ms ++ last ∷ [])) h)

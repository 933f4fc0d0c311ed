-- ===== src/Shell/Server.antt =====
-- The descriptors of clients: what is accepted is closed.
use microservice_common.Base.{
  ℕ, ◌≡◌, refl, ap, sym, ◌∙◌, true, false, List, [], ◌∷◌, ◌++◌, Option, none, some, ◌==◌,
  if◌then◌else◌, arith, Bool-cases, inl, inr, append_assoc, append_nil, All,
}
use microservice_common.Shell.{
  Shell, Answers, new_server, read_client, accept_client, run_network_callbacks, shutdown,
}

-- The client that is connected.
abbrev pub current : ℕ → List ℕ
current dscr = if dscr == 0 then [] else dscr ∷ []

-- accept gives no descriptor that stands for none.
abbrev pub GivesSome : Option ℕ → Type 0
GivesSome none = Unit
GivesSome (some dscr) = (dscr == 0) ≡ false

abbrev pub IsServed : Shell → Type 0
IsServed sh = sh.accepted ≡ sh.closed ++ current sh.client_socket_dscr

read_client-IsServed :
    (received : Option (List ℕ)) (sh : Shell)
    → (sh.client_socket_dscr == 0) ≡ false
    → IsServed sh
    → IsServed (read_client received sh)
read_client-IsServed none sh e h = h
read_client-IsServed (some (b ∷ bs)) sh e h = h
read_client-IsServed (some []) sh e h =
    h
    ∙ ap (λ b. sh.closed ++ (if b then [] else sh.client_socket_dscr ∷ [])) e
    ∙ sym (append_nil (sh.closed ++ sh.client_socket_dscr ∷ []))

accept_client-IsServed :
    (accepts : Option ℕ) (received : Option (List ℕ)) (sh : Shell)
    → (sh.client_socket_dscr == 0) ≡ true
    → GivesSome accepts
    → IsServed sh
    → IsServed (accept_client accepts received sh)
accept_client-IsServed none received sh e g h = h
accept_client-IsServed (some dscr) received sh e g h = read_client-IsServed received _ g (
    ap (λ xs. xs ++ dscr ∷ [])
      (h
        ∙ ap (λ b. sh.closed ++ (if b then [] else sh.client_socket_dscr ∷ [])) e
        ∙ append_nil sh.closed)
    ∙ ap (λ b. sh.closed ++ (if b then [] else dscr ∷ [])) (sym g))

run_network_callbacks-IsServed :
    (a : Answers) (sh : Shell)
    → GivesSome a.accepts
    → IsServed sh
    → IsServed (run_network_callbacks a sh)
unfolding run_network_callbacks
run_network_callbacks-IsServed a sh g h = elim (Bool-cases a.ready) [
  | inr idle ↦ simp idle h
  | inl ready ↦ elim (Bool-cases (sh.client_socket_dscr == 0)) [
    | inr busy ↦ simp (ready, busy) (read_client-IsServed a.receives sh busy h)
    | inl free ↦ simp (ready, free) (accept_client-IsServed a.accepts a.receives sh free g h)
  ]
]

abbrev pub run_turns : List Answers → Shell → Shell
run_turns [] sh = sh
run_turns (a ∷ as_) sh = run_turns as_ (run_network_callbacks a sh)

run_turns-IsServed :
    (as_ : List Answers) (sh : Shell)
    → All (λ a. GivesSome a.accepts) as_
    → IsServed sh
    → IsServed (run_turns as_ sh)
run_turns-IsServed [] sh g h = h
run_turns-IsServed (a ∷ as_) sh g h =
    run_turns-IsServed as_ _ g.1 (run_network_callbacks-IsServed a sh g.0 h)

read_client-server :
    (received : Option (List ℕ)) (sh : Shell)
    → (read_client received sh).server_socket_dscr ≡ sh.server_socket_dscr
read_client-server none sh = refl
read_client-server (some []) sh = refl
read_client-server (some (b ∷ bs)) sh = refl

accept_client-server :
    (accepts : Option ℕ) (received : Option (List ℕ)) (sh : Shell)
    → (accept_client accepts received sh).server_socket_dscr ≡ sh.server_socket_dscr
accept_client-server none received sh = refl
accept_client-server (some dscr) received sh = read_client-server received _

run_network_callbacks-server :
    (a : Answers) (sh : Shell)
    → (run_network_callbacks a sh).server_socket_dscr ≡ sh.server_socket_dscr
unfolding run_network_callbacks
run_network_callbacks-server a sh = elim (Bool-cases a.ready) [
  | inr idle ↦ simp idle refl
  | inl ready ↦ elim (Bool-cases (sh.client_socket_dscr == 0)) [
    | inr busy ↦ simp (ready, busy) (read_client-server a.receives sh)
    | inl free ↦ simp (ready, free) (accept_client-server a.accepts a.receives sh)
  ]
]

run_turns-server :
    (as_ : List Answers) (sh : Shell)
    → (run_turns as_ sh).server_socket_dscr ≡ sh.server_socket_dscr
run_turns-server [] sh = refl
run_turns-server (a ∷ as_) sh = run_turns-server as_ _ ∙ run_network_callbacks-server a sh

closed_ends :
    (c s dscr : ℕ)
    → s ≡ dscr
    → c ∷ s ∷ [] ≡ current c ++ ((if c == 0 then 0 ∷ [] else []) ++ dscr ∷ [])
closed_ends c s dscr e = ground arith

closed_all :
    (sh : Shell) (dscr : ℕ)
    → IsServed sh
    → sh.server_socket_dscr ≡ dscr
    → sh.closed ++ sh.client_socket_dscr ∷ sh.server_socket_dscr ∷ []
      ≡ sh.accepted ++ ((if sh.client_socket_dscr == 0 then 0 ∷ [] else []) ++ dscr ∷ [])
closed_all sh dscr h s =
    ap (λ xs. sh.closed ++ xs) (closed_ends sh.client_socket_dscr sh.server_socket_dscr dscr s)
    ∙ sym (append_assoc sh.closed (current sh.client_socket_dscr) _)
    ∙ ap (λ xs. xs ++ ((if sh.client_socket_dscr == 0 then 0 ∷ [] else []) ++ dscr ∷ [])) (sym h)

-- A server that is shut down after any turns, where accept gave no descriptor 0, has closed each
-- client that it accepted, once and in their order, and then its own socket; where no client is
-- connected it also closes descriptor 0 before its own.
pub shutdown-run_turns :
    (as_ : List Answers) (dscr : ℕ)
    → All (λ a. GivesSome a.accepts) as_
    → (shutdown (run_turns as_ (new_server dscr))).closed
      ≡ (run_turns as_ (new_server dscr)).accepted
        ++ ((if (run_turns as_ (new_server dscr)).client_socket_dscr == 0 then 0 ∷ [] else [])
            ++ dscr ∷ [])
unfolding shutdown
shutdown-run_turns as_ dscr g =
    let sh = run_turns as_ (new_server dscr) in
    closed_all sh dscr (run_turns-IsServed as_ (new_server dscr) g refl)
      (run_turns-server as_ (new_server dscr))

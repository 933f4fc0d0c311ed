-- ===== src/Shell.antt =====
-- communication/shell.{h,cpp}: the unix-socket transport. A message is a list of bytes, an observer a
-- number. What the system calls answer is an argument.
pub mod Server
pub mod Framing
pub mod Frames
pub mod Pieces
use microservice_common.Base.{
  ℕ, zero, suc, ◌+◌, Bool, true, false, List, [], ◌∷◌, ◌++◌, Option, none, some, map, ◌==◌, leb,
  length, if◌then◌else◌,
}
use microservice_common.Common.Outcome.{Outcome, returned, aborted, undefined}

-- The state of a Shell in server mode. A client's descriptor is 0 where there is none. `accepted`,
-- `closed` and `told` are the descriptors that accept gave and close got and the calls of
-- callbackNetworkRequest, with the observer and the message, in their order.
pub record Shell : Type 0 where
  pub shutdown_called : Bool
  pub client_socket_dscr : ℕ
  pub server_socket_dscr : ℕ
  pub observers : List ℕ
  pub accepted : List ℕ
  pub closed : List ℕ
  pub told : List (ℕ × List ℕ)

-- After initServer gave the socket its descriptor.
abbrev pub new_server : ℕ → Shell
new_server dscr = record {
  shutdown_called = false;
  client_socket_dscr = 0;
  server_socket_dscr = dscr;
  observers = [];
  accepted = [];
  closed = [];
  told = [];
}

-- What a turn's calls answer: whether select finds its one descriptor ready, the descriptor that accept
-- gives, and the bytes that recv gives, `none` standing for -1.
pub record Answers : Type 0 where
  pub ready : Bool
  pub accepts : Option ℕ
  pub receives : Option (List ℕ)

unfoldable pub add_observer : ℕ → Shell → Shell
add_observer o sh = record sh { observers = sh.observers ++ o ∷ [] }

abbrev pub erase_first : ℕ → List ℕ → List ℕ
erase_first o [] = []
erase_first o (x ∷ xs) = if x == o then xs else x ∷ erase_first o xs

unfoldable pub remove_observer : ℕ → Shell → Shell
remove_observer o sh = record sh { observers = erase_first o sh.observers }

-- The part of runNetworkCallbacks from recv on: a client that has closed is closed too.
abbrev pub read_client : Option (List ℕ) → Shell → Shell
read_client none sh = sh
read_client (some []) sh = record sh {
  closed = sh.closed ++ sh.client_socket_dscr ∷ [];
  client_socket_dscr = 0;
}
read_client (some (b ∷ bs)) sh = record sh { told = sh.told ++ map (λ o. (o, b ∷ bs)) sh.observers }

abbrev pub accept_client : Option ℕ → Option (List ℕ) → Shell → Shell
accept_client none received sh = sh
accept_client (some dscr) received sh =
    read_client received
      (record sh { client_socket_dscr = dscr; accepted = sh.accepted ++ dscr ∷ [] })

unfoldable pub run_network_callbacks : Answers → Shell → Shell
run_network_callbacks a sh =
    if a.ready
    then (if sh.client_socket_dscr == 0
        then accept_client a.accepts a.receives sh
        else read_client a.receives sh)
    else sh

-- In server mode both descriptors are closed, whether there is a client or not.
unfoldable pub shutdown : Shell → Shell
shutdown sh = record sh {
  observers = [];
  shutdown_called = true;
  closed = sh.closed ++ sh.client_socket_dscr ∷ sh.server_socket_dscr ∷ [];
}

-- ===== src/Connection/Script.antt =====
-- The order of the calls of `connect_server`, on every path, and which name it binds to.
use xen_syscall_analysis.Base.{
  ℕ, suc, ◌≡◌, refl, ap, Bool, true, false, ◌&&◌, Option, some, none, List, [], ◌∷◌, ◌++◌, map,
  if◌then◌else◌, All,
}
use xen_syscall_analysis.Text.{Text}
use xen_syscall_analysis.Connection.{
  Call, gethostname, getaddrinfo, getnameinfo, socket, bind, connect, freeaddrinfo, Answers, ok,
  exited, ◌>>=◌, read_host, name_calls, server_ip, server_port, connect_server,
}

abbrev pub is_some {ℓ} : {A : Type ℓ} → Option A → Bool
is_some none = false
is_some (some a) = true

abbrev pub list_or : Option (List (Option Text)) → List (Option Text)
list_or none = []
list_or (some as') = as'

abbrev pub fd_or : Option ℕ → ℕ
fd_or none = 0
fd_or (some fd) = fd

-- A call, and whether it succeeds.
abbrev pub Attempt : Type 0
Attempt = Call × Bool

abbrev pub naming : (index : ℕ) → List (Option Text) → List Attempt
naming index as' = map (λ c. (c, true)) (name_calls index as')

-- The calls of a connection that nothing stops. A call behind one that fails has whatever arguments.
abbrev pub script : Answers → List Attempt
script n =
    let as' = list_or n.addresses in
    let fd = fd_or n.socket in
    (gethostname, true)
    ∷ (getaddrinfo, is_some n.addresses)
    ∷ (naming 0 as'
        ++ (socket, is_some n.socket)
          ∷ (bind fd (read_host n.host as'), n.bound)
          ∷ (connect fd server_ip server_port, n.connected)
          ∷ (freeaddrinfo, true)
          ∷ [])

-- Up to the first call that fails, that one included.
abbrev pub made : List Attempt → List Call
made [] = []
made ((c, true) ∷ s) = c ∷ made s
made ((c, false) ∷ s) = c ∷ []

abbrev pub all_succeed : List Attempt → Bool
all_succeed [] = true
all_succeed ((c, succeeds) ∷ s) = succeeds && all_succeed s

made-naming :
    (index : ℕ) (as' : List (Option Text)) (s : List Attempt)
    → made (naming index as' ++ s) ≡ name_calls index as' ++ made s
unfolding name_calls
made-naming index [] s = refl
made-naming index (a ∷ as') s = ap (λ r. getnameinfo index ∷ r) (made-naming (suc index) as' s)

all_succeed-naming :
    (index : ℕ) (as' : List (Option Text)) (s : List Attempt)
    → all_succeed (naming index as' ++ s) ≡ all_succeed s
unfolding name_calls
all_succeed-naming index [] s = refl
all_succeed-naming index (a ∷ as') s = all_succeed-naming (suc index) as' s

module _ (host : Text) where
  by_answers :
      (as' : Option (List (Option Text))) (fd : Option ℕ) (bound connected : Bool)
      → let n : Answers = record {
        addresses = as';
        host = host;
        socket = fd;
        bound = bound;
        connected = connected;
      } in
        connect_server n
        ≡ (made (script n), if all_succeed (script n) then ok (fd_or fd) else exited 1)
  unfolding connect_server ◌>>=◌
  by_answers none fd bound connected = refl
  by_answers (some as') none bound connected = rw (made-naming 0 as', all_succeed-naming 0 as') refl
  by_answers (some as') (some fd) false connected =
      rw (made-naming 0 as', all_succeed-naming 0 as') refl
  by_answers (some as') (some fd) true false = rw (made-naming 0 as', all_succeed-naming 0 as') refl
  by_answers (some as') (some fd) true true = rw (made-naming 0 as', all_succeed-naming 0 as') refl

-- Whatever the system answers, the calls made are those of the script up to the first that fails;
-- the descriptor is returned if none does, and otherwise the program exits with code 1.
pub connect_server-script :
    (n : Answers)
    → connect_server n
      ≡ (made (script n), if all_succeed (script n) then ok (fd_or n.socket) else exited 1)
connect_server-script n = by_answers n.host n.addresses n.socket n.bound n.connected

read_host-nameless :
    (host : Text) (bs : List (Option Text)) → All (λ b. b ≡ none) bs → read_host host bs ≡ host
unfolding read_host
read_host-nameless host [] h = refl
read_host-nameless host (none ∷ bs) h = read_host-nameless host bs h.1
read_host-nameless host (some name ∷ bs) h = absurd (cc h.0)

-- The socket is bound to the last address that has a name, whatever stood in the buffer before.
read_host-append :
    (host name : Text) (as' bs : List (Option Text))
    → All (λ b. b ≡ none) bs
    → read_host host (as' ++ some name ∷ bs) ≡ name
unfolding read_host
read_host-append host name [] bs h = read_host-nameless name bs h
read_host-append host name (none ∷ as') bs h = read_host-append host name as' bs h
read_host-append host name (some x ∷ as') bs h = read_host-append x name as' bs h

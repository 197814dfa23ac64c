-- ===== src/Connection.antt =====
-- The connection to the detection server: `connect_server` and `send_syscall_verbose` of
-- src/client.h. What the system answers is a parameter, and a run is the calls that it makes.
pub mod Script
use xen_syscall_analysis.Base.{
  ℕ, zero, suc, Bool, true, false, Option, some, none, List, [], ◌∷◌, ◌++◌,
}
use xen_syscall_analysis.Text.{Text, codes}

-- The calls of the system, with the arguments that decide whom the tracer talks to.
pub data Call : Type 0 where
  gethostname : Call
  getaddrinfo : Call
  getnameinfo : (index : ℕ) → Call
  socket : Call
  bind : (fd : ℕ) (host : Text) → Call
  connect : (fd : ℕ) (ip : Text) (port : ℕ) → Call
  freeaddrinfo : Call
  close : (fd : ℕ) → Call

-- `addresses` has, for each address of the list, the text that `getnameinfo` makes of it; `host` is
-- what the buffer of that name holds at the start.
pub record Answers : Type 0 where
  pub addresses : Option (List (Option Text))
  pub host : Text
  pub socket : Option ℕ
  pub bound : Bool
  pub connected : Bool

-- The value of a call, or the exit code of the program.
pub data Result {ℓ} (A : Type ℓ) : Type ℓ where
  ok : A → Result A
  exited : (code : ℕ) → Result A

-- The calls made, and how the run ends.
abbrev pub Run {ℓ} : Type ℓ → Type ℓ
Run A = List Call × Result A

before {ℓ} : {A : Type ℓ} → List Call → Run A → Run A
before made (calls, r) = (made ++ calls, r)

infixl 5 ◌>>=◌ ◌>>◌
unfoldable pub ◌>>=◌ {ℓ κ} : {A : Type ℓ} {B : Type κ} → Run A → (A → Run B) → Run B
unfolding before
(made, ok a) >>= f = before made (f a)
(made, exited code) >>= f = (made, exited code)

abbrev pub ◌>>◌ {ℓ} : {B : Type ℓ} → Run (Unit {0}) → Run B → Run B
m >> k = m >>= λ _. k

abbrev pub say : Call → Run (Unit {0})
say c = (c ∷ [], ok tt)

abbrev pub return {ℓ} : {A : Type ℓ} → A → Run A
return a = ([], ok a)

-- A failing call ends the program.
abbrev pub need {ℓ} : {A : Type ℓ} → Option A → Run A
need none = ([], exited 1)
need (some a) = ([], ok a)

abbrev pub guard : Bool → Run (Unit {0})
guard true = ([], ok tt)
guard false = ([], exited 1)

-- The loop over the addresses: each text overwrites the one before.
unfoldable pub read_host : (host : Text) → List (Option Text) → Text
read_host host [] = host
read_host host (none ∷ as') = read_host host as'
read_host host (some name ∷ as') = read_host name as'

unfoldable pub name_calls : (index : ℕ) → List (Option Text) → List Call
name_calls index [] = []
name_calls index (a ∷ as') = getnameinfo index ∷ name_calls (suc index) as'

abbrev pub server_ip : Text
server_ip = codes "127.0.0.1"

abbrev pub server_port : ℕ
server_port = 1233

-- The descriptor that `*cs` is set to.
unfoldable pub connect_server : Answers → Run ℕ
connect_server n = do
  say gethostname
  say getaddrinfo
  addresses ← need n.addresses
  (name_calls 0 addresses, ok tt)
  let host = read_host n.host addresses
  say socket
  fd ← need n.socket
  say (bind fd host)
  guard n.bound
  say (connect fd server_ip server_port)
  guard n.connected
  say freeaddrinfo
  return fd

-- The body of `send_syscall_verbose` is empty.
unfoldable pub send_syscall_verbose : (syscall : Text) (fd : ℕ) → List Call
send_syscall_verbose syscall fd = []

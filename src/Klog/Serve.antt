-- ===== src/Klog/Serve.antt =====
-- plugin_server/source/klog.c: `serve_file_while_connected`.
use ps4_hen_plugins.Base.{
  ℕ, ◌+◌, ◌-◌, Bool, Option, none, some, List, [], ◌∷◌, ◌++◌, ltb, ◌==◌, if◌then◌else◌, length, ℤ,
  pos, negsuc,
}

-- The descriptors of an `fd_set`, in the order in which a loop over all of them meets these.
unfoldable pub fd_set : ℕ → List ℕ → List ℕ
fd_set fd [] = fd ∷ []
fd_set fd (x ∷ set) =
    let rest = fd_set fd set in
    if ltb fd x then fd ∷ (x ∷ set) else if fd == x then x ∷ set else x ∷ rest

-- What the calls of a turn give: `accept` and `read` where `select` shows the socket or the file,
-- `none` where they fail, and whether `write` succeeds for a client.
pub record Ready : Type 0 where
  pub accept : Option (Option ℕ)
  pub read : Option (Option ℕ)
  pub writes : ℕ → Bool

pub data Select : Type 0 where
  timed_out : Select
  select_failed : Select
  is_ready : Ready → Select

-- `output_set`, `nb_connections`, and the calls so far: the clients that were accepted, those that
-- were closed, and the bytes that were sent to clients.
pub record Serving : Type 0 where
  pub output_set : List ℕ
  pub nb_connections : ℕ
  pub accepted : List ℕ
  pub closed : List ℕ
  pub sent : List (ℕ × ℕ)

-- The loop goes on, or is left with `err`; or the function returns at once.
pub data Next : Type 0 where
  goes_on : Serving → Next
  leaves : ℤ → Serving → Next
  gives_up : Serving → Next

-- The clients that a byte is written to, and those that are closed.
unfoldable pub write_clients : (ℕ → Bool) → List ℕ → List ℕ × List ℕ
write_clients writes [] = ([], [])
write_clients writes (client_fd ∷ set) =
    let (kept, dropped) = write_clients writes set in
    if writes client_fd then (client_fd ∷ kept, dropped) else (kept, client_fd ∷ dropped)

unfoldable pub sent_to : ℕ → List ℕ → List (ℕ × ℕ)
sent_to ch [] = []
sent_to ch (client_fd ∷ set) = (client_fd, ch) ∷ sent_to ch set

unfoldable pub send_byte : (ℕ → Bool) → ℕ → Serving → Serving
unfolding write_clients sent_to
send_byte writes ch s =
    let (kept, dropped) = write_clients writes s.output_set in
    record s {
      output_set = kept;
      nb_connections = s.nb_connections - length dropped;
      closed = s.closed ++ dropped;
      sent = s.sent ++ sent_to ch kept;
    }

-- `while (nb_connections > 0)`
unfoldable pub loop_test : Serving → Next
loop_test s = if ltb 0 s.nb_connections then goes_on s else leaves (pos 0) s

unfoldable pub read_file : (ℕ → Bool) → Option (Option ℕ) → Serving → Next
unfolding send_byte loop_test
read_file writes none s = loop_test s
read_file writes (some none) s = leaves (negsuc 0) s
read_file writes (some (some ch)) s = loop_test (send_byte writes ch s)

unfoldable pub accept_client : Ready → Option (Option ℕ) → Serving → Next
unfolding read_file fd_set
accept_client r none s = read_file r.writes r.read s
accept_client r (some none) s = leaves (negsuc 0) s
accept_client r (some (some client_fd)) s = read_file r.writes r.read (record s {
  output_set = fd_set client_fd s.output_set;
  nb_connections = s.nb_connections + 1;
  accepted = s.accepted ++ client_fd ∷ [];
})

-- A turn of the loop.
unfoldable pub serve_turn : Select → Serving → Next
unfolding loop_test accept_client
serve_turn timed_out s = loop_test s
serve_turn select_failed s = gives_up s
serve_turn (is_ready r) s = accept_client r r.accept s

-- Behind the loop every client that is left is closed.
unfoldable pub close_clients : Serving → Serving
close_clients s = record s { output_set = []; closed = s.closed ++ s.output_set }

pub data Served : Type 0 where
  serving : Serving → Served
  returned : ℤ → Serving → Served

-- How the run goes on behind a turn.
unfoldable pub served_next : (Serving → Served) → Next → Served
unfolding close_clients
served_next more (goes_on s) = more s
served_next more (leaves err s) = returned err (close_clients s)
served_next more (gives_up s) = returned (negsuc 0) s

-- The turns with these results; the file is closed where the function returns.
unfoldable pub serve_turns : List Select → Serving → Served
unfolding serve_turn served_next
serve_turns [] s = serving s
serve_turns (r ∷ rs) s = served_next (serve_turns rs) (serve_turn r s)

abbrev pub nobody : Serving
nobody = record { output_set = []; nb_connections = 0; accepted = []; closed = []; sent = [] }

-- The function, where the file can be opened or not.
unfoldable pub serve_file_while_connected : Bool → List Select → Served
unfolding serve_turns
serve_file_while_connected opened turns =
    if opened then serve_turns turns nobody else returned (negsuc 0) nobody

-- ===== src/Ftp/Server.antt =====
-- plugin_server/source/ftp/ftp.c: `ftp_serve` and `ftp_main`.
use ps4_hen_plugins.Base.{
  ℕ, Bool, true, false, not, ◌&&◌, ◌||◌, Option, none, some, List, [], ◌∷◌, ◌++◌, if◌then◌else◌,
  Bytes, ℤ, pos, negsuc, codes, matches, take,
}
use ps4_hen_plugins.Ftp.{Kernel, State, Outcome, returned, exited, starved}
use ps4_hen_plugins.Ftp.Session.{ftp_thread}

-- An interface: whether it has an address and one of `AF_INET`, its name, and the address as text.
pub record Ifaddrs : Type 0 where
  pub has_ifa_addr : Bool
  pub is_af_inet : Bool
  pub ifa_name : Bytes
  pub ifa_ip : Bytes

-- A connection that is accepted: its descriptor, and the system that its thread runs on, which no
-- other thread changes as far as this one sees it.
pub record Client : Type 0 where
  pub connfd : ℕ
  pub system : Kernel
  pub fuel : ℕ

-- What the calls of one `ftp_serve` give: `none`, or `false`, where they fail.
pub record Attempt : Type 0 where
  pub getifaddrs : Option (List Ifaddrs)
  pub socket : Option ℕ
  pub setsockopt : Bool
  pub bind : Bool
  pub listen : Bool
  pub clients : List (Option Client)
  pub closes : Bool

-- The calls so far: the interfaces that the user was told of, the sockets that were opened and
-- closed, and the threads that were created, by the state in which they end.
pub record Server : Type 0 where
  pub announced : List Ifaddrs
  pub opened : List ℕ
  pub closed : List ℕ
  pub threads : List State

-- The tests by which interfaces are skipped.
unfoldable pub is_announced : Ifaddrs → Bool
unfolding matches
is_announced ifa =
    ifa.has_ifa_addr
    && (ifa.is_af_inet
        && (not (matches (take 2 ifa.ifa_name) (codes "lo"))
            && not (matches (take 2 ifa.ifa_ip) (codes "0."))))

-- The loop over the interfaces: those that the user is told of, and `ifaddr_wait`.
unfoldable pub announce : Bool → List Ifaddrs → List Ifaddrs × Bool
unfolding is_announced
announce notify_user [] = ([], true)
announce notify_user (ifa ∷ rest) =
    let (told, wait) = announce notify_user rest in
    if is_announced ifa then ((if notify_user then ifa ∷ told else told), false) else (told, wait)

unfoldable pub create_thread : Client → Server → Server
unfolding ftp_thread
create_thread client s = record s {
  threads = s.threads ++ (ftp_thread client.system client.fuel (pos client.connfd) []).1 ∷ [];
}

-- `while (1)`: whether `accept` has failed, or the loop waits for the next connection.
unfoldable pub accept_loop : List (Option Client) → Server → Bool × Server
unfolding create_thread
accept_loop [] s = (false, s)
accept_loop (none ∷ rest) s = (true, s)
accept_loop (some client ∷ rest) s = accept_loop rest (create_thread client s)

-- `return close(srvfd)` behind the loop.
unfoldable pub close_srvfd : Bool → ℕ → Bool × Server → Outcome ℤ × Server
close_srvfd closes srvfd (false, s) = (starved, s)
close_srvfd closes srvfd (true, s) =
    (returned (if closes then pos 0 else negsuc 0), record s { closed = s.closed ++ srvfd ∷ [] })

unfoldable pub listen_on : Attempt → Option ℕ → Server → Outcome ℤ × Server
unfolding accept_loop close_srvfd
listen_on a none s = (returned (negsuc 0), s)
listen_on a (some srvfd) s =
    let next = record s { opened = s.opened ++ srvfd ∷ [] } in
    if not a.setsockopt || (not a.bind || not a.listen)
    then (returned (negsuc 0), next)
    else close_srvfd a.closes srvfd (accept_loop a.clients next)

unfoldable pub serve_ifaddrs : Attempt → Bool → Option (List Ifaddrs) → Server → Outcome ℤ × Server
unfolding announce listen_on
serve_ifaddrs a notify_user none s = (exited, s)
serve_ifaddrs a notify_user (some ifaddr) s =
    let (told, wait) = announce notify_user ifaddr in
    let next = record s { announced = s.announced ++ told } in
    if wait then (returned (pos 0), next) else listen_on a a.socket next

-- `ftp_serve`
unfoldable pub ftp_serve : Attempt → Bool → Server → Outcome ℤ × Server
unfolding serve_ifaddrs
ftp_serve a notify_user s = serve_ifaddrs a notify_user a.getifaddrs s

-- Behind a call of `ftp_serve`; only the end of the process ends the loop.
unfoldable pub main_next : (Server → Outcome ℤ × Server) → Outcome ℤ × Server → Outcome ℤ × Server
main_next again (returned _, s) = again s
main_next again (exited, s) = (exited, s)
main_next again (starved, s) = (starved, s)

unfoldable pub main_loop : Bool → List Attempt → Server → Outcome ℤ × Server
unfolding ftp_serve main_next
main_loop notify_user [] s = (starved, s)
main_loop notify_user (a ∷ attempts) s =
    main_next (main_loop false attempts) (ftp_serve a notify_user s)

-- `ftp_main`
unfoldable pub ftp_main : List Attempt → Outcome ℤ × Server
unfolding main_loop
ftp_main attempts =
    main_loop true attempts (record { announced = []; opened = []; closed = []; threads = [] })

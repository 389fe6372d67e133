-- ===== src/Klog/Server.antt =====
-- plugin_server/source/klog.c: `serve_file`, and the server's loop.
use ps4_hen_plugins.Base.{
  ℕ, Bool, true, false, not, ◌&&◌, ◌||◌, Option, none, some, List, [], ◌∷◌, ◌++◌, if◌then◌else◌,
  Bytes, ℤ, pos, negsuc, is_negative, codes, matches, take,
}

-- An interface: whether it has an address and one of `AF_INET`, its name, and the address as text.
pub record Interface : Type 0 where
  pub has_addr : Bool
  pub is_inet : Bool
  pub name : Bytes
  pub ip : Bytes

-- The tests by which interfaces are skipped.
unfoldable pub is_shown : Interface → Bool
unfolding matches
is_shown ifa =
    ifa.has_addr
    && (ifa.is_inet
        && (not (matches (take 2 ifa.name) (codes "lo"))
            && not (matches (take 2 ifa.ip) (codes "0."))))

-- The loop: the interfaces that the user is told of, and `ifaddr_wait`.
unfoldable pub show_interfaces : Bool → List Interface → List Interface × Bool
unfolding is_shown
show_interfaces notify_user [] = ([], true)
show_interfaces notify_user (ifa ∷ rest) =
    let (shown, wait) = show_interfaces notify_user rest in
    if is_shown ifa then ((if notify_user then ifa ∷ shown else shown), false) else (shown, wait)

-- What the calls give: `none`, or `false`, where they fail; for each turn of the loop whether
-- `select` succeeds, whether it shows the socket, and what serving a client returns.
pub record Network : Type 0 where
  pub getifaddrs : Option (List Interface)
  pub socket : Option ℕ
  pub setsockopt : Bool
  pub bind : Bool
  pub listen : Bool
  pub turns : List (Bool × (Bool × ℤ))

-- The result, `none` while it runs, and whether the socket is left open.
unfoldable pub server_loop : List (Bool × (Bool × ℤ)) → Option ℤ × Bool
server_loop [] = (none, true)
server_loop ((selected, (is_set, result)) ∷ turns) =
    let rest = server_loop turns in
    if not selected
    then (some (negsuc 0), true)
    else if is_set && is_negative result
    then (some (negsuc 0), false)
    else rest

unfoldable pub open_server : Network → Option ℕ → Option ℤ × Bool
unfolding server_loop
open_server net none = (some (negsuc 0), false)
open_server net (some sockfd) =
    if not net.setsockopt || (not net.bind || not net.listen)
    then (some (negsuc 0), true)
    else server_loop net.turns

unfoldable pub serve_interfaces :
    Network → Bool → Option (List Interface) → List Interface × (Option ℤ × Bool)
unfolding show_interfaces open_server
serve_interfaces net notify_user none = ([], (some (negsuc 0), false))
serve_interfaces net notify_user (some interfaces) =
    let (shown, wait) = show_interfaces notify_user interfaces in
    (shown, if wait then (some (pos 0), false) else open_server net net.socket)

-- `serve_file`: the interfaces shown, the result, and whether the socket is left open.
unfoldable pub serve_file : Network → Bool → List Interface × (Option ℤ × Bool)
unfolding serve_interfaces
serve_file net notify_user = serve_interfaces net notify_user net.getifaddrs

-- `pthread_kserver`: the user is told of the interfaces by the first call only.
unfoldable pub kserver_loop : Bool → List Network → List Interface
unfolding serve_file
kserver_loop notify_user [] = []
kserver_loop notify_user (net ∷ nets) = (serve_file net notify_user).0 ++ kserver_loop false nets

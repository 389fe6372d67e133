-- ===== src/Ftp/Fate.antt =====
-- plugin_server/source/ftp/ftp.c: what attempts to serve leave behind, told without the calls.
use ps4_hen_plugins.Base.{
  Bool, true, false, ◌&&◌, ◌||◌, Option, none, some, List, [], ◌∷◌, ◌++◌, ℕ, pos, if◌then◌else◌,
}
use ps4_hen_plugins.Ftp.{State}
use ps4_hen_plugins.Ftp.Session.{ftp_thread}
use ps4_hen_plugins.Ftp.Server.{Ifaddrs, Client, Attempt, is_announced}

-- Whether some interface has an address to serve on.
unfoldable pub any_announced : List Ifaddrs → Bool
any_announced [] = false
any_announced (ifa ∷ rest) = is_announced ifa || any_announced rest

abbrev pub some_fails : List (Option Client) → Bool
some_fails [] = false
some_fails (none ∷ rest) = true
some_fails (some client ∷ rest) = some_fails rest

abbrev pub is_listening : Attempt → Bool
is_listening a = a.setsockopt && (a.bind && a.listen)

-- The connections before the first failure of `accept`.
abbrev pub before_failure : List (Option Client) → List Client
before_failure [] = []
before_failure (none ∷ rest) = []
before_failure (some client ∷ rest) = client ∷ before_failure rest

-- What is left of an attempt: the sockets that stay open, the connections that were accepted, and
-- whether the function returns.
pub record Fate : Type 0 where
  pub lost : List ℕ
  pub connected : List Client
  pub returns : Bool

-- A socket that does not listen is lost, and one that still waits is open.
abbrev pub socket_fate : Attempt → Option ℕ → Fate
socket_fate a none = record { lost = []; connected = []; returns = true }
socket_fate a (some srvfd) =
    if is_listening a
    then record {
      lost = if some_fails a.clients then [] else srvfd ∷ [];
      connected = before_failure a.clients;
      returns = some_fails a.clients;
    }
    else record { lost = srvfd ∷ []; connected = []; returns = true }

abbrev pub attempt_fate : Attempt → Option (List Ifaddrs) → Fate
attempt_fate a none = record { lost = []; connected = []; returns = false }
attempt_fate a (some ifaddr) =
    if any_announced ifaddr
    then socket_fate a a.socket
    else record { lost = []; connected = []; returns = true }

abbrev pub followed : Fate → Fate → Fate
followed f g = record {
  lost = f.lost ++ (if f.returns then g.lost else []);
  connected = f.connected ++ (if f.returns then g.connected else []);
  returns = f.returns && g.returns;
}

-- What is left of attempts that follow each other, up to one that does not return.
abbrev pub fate : List Attempt → Fate
fate [] = record { lost = []; connected = []; returns = false }
fate (a ∷ attempts) = followed (attempt_fate a a.getifaddrs) (fate attempts)

-- The states in which the threads of the connections end.
abbrev pub ends : List Client → List State
ends [] = []
ends (c ∷ cs) = (ftp_thread c.system c.fuel (pos c.connfd) []).1 ∷ ends cs

-- The interfaces with an address to serve on, and those of the first attempt.
unfoldable pub shown : List Ifaddrs → List Ifaddrs
shown [] = []
shown (ifa ∷ rest) = let more = shown rest in if is_announced ifa then ifa ∷ more else more

unfoldable pub found : Option (List Ifaddrs) → List Ifaddrs
unfolding shown
found none = []
found (some ifaddr) = shown ifaddr

unfoldable pub first_shown : List Attempt → List Ifaddrs
unfolding found
first_shown [] = []
first_shown (a ∷ attempts) = found a.getifaddrs

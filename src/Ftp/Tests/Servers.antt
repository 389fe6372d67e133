-- ===== src/Ftp/Tests/Servers.antt =====
-- plugin_server/source/ftp/ftp.c: a server that waits for an address, and then serves.
use ps4_hen_plugins.Base.{ℕ, true, false, none, some, List, [], ◌∷◌, ◌≡◌, refl, arith, codes, All}
use ps4_hen_plugins.Ftp.Server.{Ifaddrs, Client, Attempt, is_announced, ftp_main}
use ps4_hen_plugins.Ftp.Fate.{fate, any_announced}
use ps4_hen_plugins.Ftp.Keeps.Directory.{IsAbsolute}
use ps4_hen_plugins.Ftp.Accounted.{ftp_main-IsAbsolute}
use ps4_hen_plugins.Ftp.Tests.{plain_system}

abbrev wired : Ifaddrs
wired = record {
  has_ifa_addr = true;
  is_af_inet = true;
  ifa_name = codes "eth0";
  ifa_ip = codes "10.0.0.2";
}

abbrev loopback : Ifaddrs
loopback = record {
  has_ifa_addr = true;
  is_af_inet = true;
  ifa_name = codes "lo0";
  ifa_ip = codes "127.0.0.1";
}

abbrev client : ℕ → Client
client fd = record { connfd = fd; system = plain_system; fuel = 2 }

-- No address at first, then a port that is taken, then two connections before a failure.
abbrev attempts : List Attempt
attempts =
    record {
      getifaddrs = some (loopback ∷ []);
      socket = some 6;
      setsockopt = true;
      bind = true;
      listen = true;
      clients = [];
      closes = true;
    }
    ∷ record {
      getifaddrs = some (loopback ∷ wired ∷ []);
      socket = some 6;
      setsockopt = true;
      bind = false;
      listen = true;
      clients = [];
      closes = true;
    }
    ∷ record {
      getifaddrs = some (wired ∷ []);
      socket = some 7;
      setsockopt = true;
      bind = true;
      listen = true;
      clients = some (client 8) ∷ some (client 9) ∷ none ∷ [];
      closes = true;
    }
    ∷ []

untold : (ftp_main attempts).1.announced ≡ []
unfolding ftp_main
untold = refl

lost_socket : (fate attempts).lost ≡ 6 ∷ []
unfolding any_announced is_announced
lost_socket = refl

one_system : All (λ c. c.system.path_max ≡ 1024) (fate attempts).connected
unfolding any_announced is_announced
one_system = (refl, (refl, tt))

ftp_main-IsAbsolute_example : All (λ t. IsAbsolute 1024 t.env) (ftp_main attempts).1.threads
ftp_main-IsAbsolute_example = ftp_main-IsAbsolute 1024 attempts (omega arith) one_system

-- ===== src/Ftp/Ports.antt =====
-- plugin_server/source/ftp/cmd.c: the address that `PASV` tells and `PORT` takes.
use ps4_hen_plugins.Base.{
  ℕ, ◌+◌, ◌*◌, ◌^◌, ◌<◌, false, some, List, [], ◌∷◌, ◌≡◌, refl, ap, ◌∙◌, arith, drop, codes,
  is_negative,
}
use ps4_hen_plugins.Ftp.{socket, Kernel, State, ◌>>=◌, on_some}
use ps4_hen_plugins.Ftp.Digits.{listed, scan_bytes-listed, EndsNumber}
use ps4_hen_plugins.Ftp.Format.{scan_bytes, is_digit}
use ps4_hen_plugins.Ftp.Replies.{ftp_active_printf}
use ps4_hen_plugins.Ftp.Connection.{byte, passive_reply, open_port, ftp_cmd_port}

-- The six numbers for an address and a port.
six : ℕ → ℕ → List ℕ
six addr port =
    byte addr 0 ∷ byte addr 1 ∷ byte addr 2 ∷ byte addr 3 ∷ byte port 0 ∷ byte port 1 ∷ []

passive_reply-listed :
    (addr port : ℕ) → drop 27 (passive_reply addr port) ≡ listed (six addr port) (codes ").\r\n")
unfolding passive_reply listed six
passive_reply-listed addr port = refl

is_byte : (x i : ℕ) → byte x i < 256
is_byte x i = omega arith

scan_bytes-passive_reply :
    (addr port : ℕ) → scan_bytes 6 (drop 27 (passive_reply addr port)) ≡ some (six addr port)
unfolding six EndsNumber is_digit
scan_bytes-passive_reply addr port =
    ap (scan_bytes 6) (passive_reply-listed addr port)
    ∙ scan_bytes-listed (byte addr 0) _ (codes ").\r\n")
        (
          is_byte addr 0,
          (
            is_byte addr 1,
            (is_byte addr 2, (is_byte addr 3, (is_byte port 0, (is_byte port 1, tt)))),
          ),
        )
        refl

four_bytes :
    (addr : ℕ)
    → addr < 2 ^ 32
    → byte addr 3 * 2 ^ 24 + byte addr 2 * 2 ^ 16 + byte addr 1 * 2 ^ 8 + byte addr 0 ≡ addr
four_bytes addr below = omega arith

two_bytes : (port : ℕ) → port < 2 ^ 16 → byte port 1 * 2 ^ 8 + byte port 0 ≡ port
two_bytes port below = omega arith

-- What `open_port` makes of the numbers, where a socket is there.
open_port-data_addr :
    (k : Kernel) (s : State) (addr port : ℕ)
    → is_negative (k.returns_int s.log socket) ≡ false
    → (open_port k (six addr port) s).1.env.data_addr ≡ record {
      s_addr = byte addr 3 * 2 ^ 24 + byte addr 2 * 2 ^ 16 + byte addr 1 * 2 ^ 8 + byte addr 0;
      sin_port = byte port 1 * 2 ^ 8 + byte port 0;
    }
unfolding open_port six ftp_active_printf ◌>>=◌
open_port-data_addr k s addr port opened = rw opened refl

-- The address and the port that a reply to `PASV` tells are what `PORT` sets when it is given the
-- text behind the parenthesis of that reply, for every address of 32 bits and port of 16, provided
-- that the system has a socket.
pub ftp_cmd_port-passive_reply :
    (k : Kernel) (s : State) (addr port : ℕ)
    → addr < 2 ^ 32
    → port < 2 ^ 16
    → is_negative (k.returns_int s.log socket) ≡ false
    → (ftp_cmd_port k (drop 27 (passive_reply addr port)) s).1.env.data_addr
      ≡ record { s_addr = addr; sin_port = port }
unfolding ftp_cmd_port on_some
ftp_cmd_port-passive_reply k s addr port small_addr small_port opened =
    ap
      (λ o.
        (on_some o (ftp_active_printf k (codes "501 Usage: PORT <addr>\r\n")) (open_port k)
          s).1.env.data_addr)
      (scan_bytes-passive_reply addr port)
    ∙ open_port-data_addr k s addr port opened
    ∙ rw (four_bytes addr small_addr, two_bytes port small_port) refl

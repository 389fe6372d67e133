-- ===== src/Ftp/Connection.antt =====
-- plugin_server/source/ftp/cmd.c: the commands on the connection and its settings.
use ps4_hen_plugins.Base.{
  ℕ, ◌+◌, ◌*◌, ◌/◌, ◌%◌, ◌^◌, ◌||◌, List, [], ◌∷◌, ◌++◌, ◌==◌, if◌then◌else◌, Bytes, codes, ℤ,
  is_negative, is_positive,
}
use ps4_hen_plugins.Ftp.{
  getsockname, socket, bind, listen, close, Kernel, M, ◌>>=◌, ◌>>◌, pure, ask, gets, modify, quit,
  on_some, failure, fails, int,
}
use ps4_hen_plugins.Ftp.Format.{decimal, strtol, scan_bytes}
use ps4_hen_plugins.Ftp.Replies.{ftp_active_printf, ftp_perror}
use ps4_hen_plugins.Ftp.Paths.{is_empty}

-- `(x >> 8 * i) & 0xFF`
abbrev pub byte : ℕ → ℕ → ℕ
byte x i = (x / 2 ^ (8 * i)) % 256

-- The text of the reply to `PASV`.
unfoldable pub passive_reply : ℕ → ℕ → Bytes
passive_reply addr port =
    codes "227 Entering Passive Mode ("
    ++ (decimal (byte addr 0)
        ++ (b','
            ∷ (decimal (byte addr 1)
                ++ (b','
                    ∷ (decimal (byte addr 2)
                        ++ (b','
                            ∷ (decimal (byte addr 3)
                                ++ (b','
                                    ∷ (decimal (byte port 0)
                                        ++ (b','
                                            ∷ (decimal (byte port 1) ++ codes ").\r\n")))))))))))

module _ (k : Kernel) where
  -- `int ret = ftp_perror(env); close(env->passive_fd); return ret;`
  close_passive : ℤ → M ℤ
  close_passive fd = do ret ← ftp_perror k; fails k (close fd); pure ret

  -- From `listen` on: the port of the new socket is told to the client.
  unfoldable pub listen_passive : ℕ → ℤ → M ℤ
  unfolding close_passive
  listen_passive addr fd = do
    failed ← fails k (listen fd)
    if failed then close_passive fd else (do
      name ← ask (getsockname fd) (λ log. k.names log fd)
      on_some name (close_passive fd) (λ name. ftp_active_printf k (passive_reply addr name.1)))

  unfoldable pub bind_passive : ℕ → ℤ → M ℤ
  unfolding listen_passive close_passive
  bind_passive addr fd = if is_negative fd then ftp_perror k else (do
    failed ← fails k (bind fd)
    if failed then close_passive fd else listen_passive addr fd)

  -- `if (env->passive_fd > 0) close(env->passive_fd);`
  unfoldable pub close_positive : ℤ → M (Unit {0})
  close_positive fd = if is_positive fd then (do fails k (close fd); pure tt) else pure tt

  unfoldable pub ftp_cmd_pasv : Bytes → M ℤ
  unfolding bind_passive close_positive
  ftp_cmd_pasv arg = do
    active_fd ← gets (λ e. e.active_fd)
    name ← ask (getsockname active_fd) (λ log. k.names log active_fd)
    on_some name (ftp_perror k) (λ name. do
      old ← gets (λ e. e.passive_fd)
      close_positive old
      fd ← int k socket
      modify (λ e. record e { passive_fd = fd })
      bind_passive name.0 fd)

  -- With the six numbers of the argument.
  unfoldable pub open_port : List ℕ → M ℤ
  open_port (a ∷ b ∷ c ∷ d ∷ e ∷ f ∷ []) = do
    fd ← int k socket
    modify (λ env. record env { data_fd = fd })
    if is_negative fd then ftp_perror k else (do
      modify (λ env. record env {
        data_addr = record {
          s_addr = d * 2 ^ 24 + c * 2 ^ 16 + b * 2 ^ 8 + a;
          sin_port = f * 2 ^ 8 + e;
        };
      })
      ftp_active_printf k (codes "200 PORT command successful.\r\n"))
  open_port _ = ftp_active_printf k (codes "501 Usage: PORT <addr>\r\n")

  unfoldable pub ftp_cmd_port : Bytes → M ℤ
  unfolding open_port
  ftp_cmd_port arg =
      on_some (scan_bytes 6 arg) (ftp_active_printf k (codes "501 Usage: PORT <addr>\r\n"))
        open_port

  unfoldable pub ftp_cmd_noop : Bytes → M ℤ
  ftp_cmd_noop arg = ftp_active_printf k (codes "200 NOOP OK\r\n")

  unfoldable pub ftp_cmd_quit : Bytes → M ℤ
  ftp_cmd_quit arg = do ftp_active_printf k (codes "221 Goodbye\r\n"); pure failure

  unfoldable pub ftp_cmd_rest : Bytes → M ℤ
  ftp_cmd_rest arg =
      if is_empty arg then ftp_active_printf k (codes "501 Usage: REST <OFFSET>\r\n") else (do
        modify (λ e. record e { data_offset = strtol 10 arg })
        ftp_active_printf k (codes "350 REST OK\r\n"))

  unfoldable pub ftp_cmd_syst : Bytes → M ℤ
  ftp_cmd_syst arg = ftp_active_printf k (codes "215 UNIX Type: L8\r\n")

  unfoldable pub ftp_cmd_type : Bytes → M ℤ
  ftp_cmd_type [] = ftp_active_printf k (codes "501 Invalid argument to TYPE\r\n")
  ftp_cmd_type (c ∷ _) =
      if c == b'A' || c == b'I'
      then (do
        modify (λ e. record e { type = c })
        ftp_active_printf k (codes "200 Type set to " ++ c ∷ codes "\r\n"))
      else ftp_active_printf k (codes "501 Invalid argument to TYPE\r\n")

  unfoldable pub ftp_cmd_user : Bytes → M ℤ
  ftp_cmd_user arg = ftp_active_printf k (codes "230 User logged in\r\n")

  -- The process ends; the call does not return.
  unfoldable pub ftp_cmd_kill : Bytes → M ℤ
  ftp_cmd_kill arg = quit

  -- Without `__PROSPERO__`, as this plugin is built.
  unfoldable pub ftp_cmd_mtrw : Bytes → M ℤ
  ftp_cmd_mtrw arg = ftp_active_printf k (codes "226 command not supported\r\n")

  unfoldable pub ftp_cmd_unavailable : Bytes → M ℤ
  ftp_cmd_unavailable arg = ftp_active_printf k (codes "502 Command not implemented\r\n")

  unfoldable pub ftp_cmd_unknown : Bytes → M ℤ
  ftp_cmd_unknown arg = ftp_active_printf k (codes "502 Command not recognized\r\n")

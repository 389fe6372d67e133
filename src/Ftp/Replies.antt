-- ===== src/Ftp/Replies.antt =====
-- plugin_server/source/ftp/cmd.c: replies on the control connection, and the data connection.
use ps4_hen_plugins.Base.{
  ℕ, not, Option, none, some, ◌++◌, ◌==◌, if◌then◌else◌, Bytes, length, take, codes, ℤ, is_negative,
  to_size,
}
use ps4_hen_plugins.Ftp.{
  connect, accept, close, recv, write, Log, Kernel, M, ◌>>=◌, ◌>>◌, pure, gets, modify, observe,
  success, failure, fails, int, bytes,
}

module _ (k : Kernel) where
  -- Writing a whole string: whether the result is its length.
  write_all : ℤ → Bytes → M ℤ
  write_all fd text = do
    n ← int k (write fd text (length text))
    pure (if to_size n == length text then success else failure)

  -- `ftp_active_printf`, on the text that `vsnprintf` makes, cut to its buffer.
  unfoldable pub ftp_active_printf : Bytes → M ℤ
  unfolding write_all
  ftp_active_printf text = do fd ← gets (λ e. e.active_fd); write_all fd (take 4095 text)

  unfoldable pub ftp_data_printf : Bytes → M ℤ
  unfolding write_all
  ftp_data_printf text = do fd ← gets (λ e. e.data_fd); write_all fd (take 4095 text)

  -- `strerror_r`, or the text where that fails.
  abbrev pub errno_text : Log → Bytes
  errno_text log = elim (k.error_text log) [ none ↦ codes "Unknown error" | some t ↦ take 254 t ]

  unfoldable pub ftp_perror : M ℤ
  unfolding ftp_active_printf
  ftp_perror = do
    text ← observe errno_text
    ftp_active_printf (codes "550 " ++ (text ++ codes "\r\n"))

  -- 0 where the connection is open. With a port from `PORT` it connects, else it accepts.
  unfoldable pub ftp_data_open : M ℤ
  ftp_data_open = do
    addr ← gets (λ e. e.data_addr)
    data_fd ← gets (λ e. e.data_fd)
    passive_fd ← gets (λ e. e.passive_fd)
    if not (addr.sin_port == 0)
        then (do
          failed ← fails k (connect data_fd addr)
          pure (if failed then failure else success))
        else (do
          fd ← int k (accept passive_fd)
          modify (λ e. record e { data_fd = fd })
          pure (if is_negative fd then failure else success))

  unfoldable pub ftp_data_read : ℕ → M (Option Bytes)
  ftp_data_read count = do fd ← gets (λ e. e.data_fd); bytes k (recv fd count)

  unfoldable pub ftp_data_close : M ℤ
  ftp_data_close = do
    fd ← gets (λ e. e.data_fd)
    failed ← fails k (close fd)
    pure (if failed then failure else success)

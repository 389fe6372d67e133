-- ===== src/Ftp/Store.antt =====
-- plugin_server/source/ftp/cmd.c: `STOR` and `APPE`, which write a file from the data connection.
use ps4_hen_plugins.Base.{
  ℕ, zero, suc, not, Option, none, some, [], ◌==◌, if◌then◌else◌, Bytes, codes, ℤ, pos, is_negative,
  is_zero, to_size, to_off,
}
use ps4_hen_plugins.Ftp.{
  close, open_write, lseek, ftruncate, write, Kernel, M, ◌>>=◌, ◌>>◌, pure, starve, gets, modify,
  on_some, failure, fails, int, stat_of,
}
use ps4_hen_plugins.Ftp.Replies.{
  ftp_active_printf, ftp_perror, ftp_data_open, ftp_data_read, ftp_data_close,
}
use ps4_hen_plugins.Ftp.Paths.{is_empty, abspath}
use ps4_hen_plugins.Ftp.Transfer.{add_off, received, abort_transfer, abort_file}

-- How the loop of `STOR` ends: with the offset behind the data, or with the result to return.
pub data Stored : Type 0 where
  stored : ℤ → Stored
  aborted : ℤ → Stored

module _ (k : Kernel) where
  -- The loop of `STOR`, with the offset and the buffer. A `recv` that fails gives a `size_t` of
  -- 2 ^ 64 - 1, and so does a `write` that fails.
  unfoldable pub store_loop : ℕ → ℤ → ℤ → Bytes → M Stored
  unfolding abort_transfer ftp_data_read
  store_loop zero fd off buf = starve
  store_loop (suc fuel) fd off buf = do
    got ← ftp_data_read k 0x4000
    let r = received got buf
    if r.0 == 0 then pure (stored off) else (do
      n ← int k (write fd r.1 r.0)
      if not (to_size n == r.0)
          then (do err ← abort_transfer k fd; pure (aborted err))
          else store_loop fuel fd (add_off off r.0) r.1)

  -- Behind the loop.
  unfoldable pub stor_end : ℤ → Stored → M ℤ
  unfolding abort_transfer
  stor_end fd (aborted err) = pure err
  stor_end fd (stored off) = do
    failed ← fails k (ftruncate fd off)
    if failed then abort_transfer k fd else (do
      fails k (close fd)
      closed ← ftp_data_close k
      if not (is_zero closed)
          then ftp_perror k
          else ftp_active_printf k (codes "226 Data transfer complete\r\n"))

  -- From the `open` on.
  unfoldable pub stor_open : ℕ → ℤ → Bytes → M ℤ
  unfolding abort_file store_loop stor_end
  stor_open fuel off pathbuf = do
    fd ← int k (open_write pathbuf)
    if is_negative fd then ftp_perror k else (do
      at ← int k (lseek fd off)
      if is_negative at then abort_file k fd else (do
        told ← ftp_active_printf k (codes "150 Opening data transfer\r\n")
        if not (is_zero told) then (do fails k (close fd); pure failure) else (do
          opened ← ftp_data_open k
          if not (is_zero opened)
              then abort_file k fd
              else (do end ← store_loop fuel fd off []; stor_end fd end))))

  unfoldable pub ftp_cmd_stor : ℕ → Bytes → M ℤ
  unfolding stor_open
  ftp_cmd_stor fuel arg = do
    off ← gets (λ e. e.data_offset)
    modify (λ e. record e { data_offset = pos 0 })
    if is_empty arg
        then ftp_active_printf k (codes "501 Usage: STOR <FILENAME>\r\n")
        else (do pathbuf ← abspath k arg; stor_open fuel off pathbuf)

  -- `if (!env->data_offset)`: the size of the file is the offset, or there is no file.
  unfoldable pub append_offset : Bytes → M (Option ℤ)
  append_offset arg = do
    pathbuf ← abspath k arg
    st ← stat_of k pathbuf
    on_some st (do err ← ftp_perror k; pure (some err))
        (λ st. do modify (λ e. record e { data_offset = to_off st.st_size }); pure none)

  unfoldable pub ftp_cmd_appe : ℕ → Bytes → M ℤ
  unfolding append_offset ftp_cmd_stor
  ftp_cmd_appe fuel arg =
      if is_empty arg then ftp_active_printf k (codes "501 Usage: APPE <FILENAME>\r\n") else (do
        offset ← gets (λ e. e.data_offset)
        if is_zero offset
            then (do err ← append_offset arg; on_some err (ftp_cmd_stor fuel arg) pure)
            else ftp_cmd_stor fuel arg)

-- ===== src/Ftp/Transfer.antt =====
-- plugin_server/source/ftp/cmd.c: the commands that move data over the data connection.
use ps4_hen_plugins.Base.{
  ℕ, zero, suc, ◌+◌, ◌-◌, ◌^◌, Bool, false, not, Option, none, some, [], ◌∷◌, ◌++◌, ◌==◌,
  if◌then◌else◌, Bytes, length, take, codes, ℤ, pos, negsuc, is_negative, is_zero, to_size, to_off,
}
use ps4_hen_plugins.Ftp.{
  close, opendir, readdir, closedir, open_read, read, write, Stat, Kernel, M, ◌>>=◌, ◌>>◌, pure,
  starve, ask, gets, observe, on_some, failure, fails, int, bytes, stat_of,
}
use ps4_hen_plugins.Ftp.Format.{decimal, ftp_mode_string, is_dir}
use ps4_hen_plugins.Ftp.Replies.{
  ftp_active_printf, ftp_perror, ftp_data_printf, ftp_data_open, ftp_data_close, errno_text,
}
use ps4_hen_plugins.Ftp.Paths.{is_empty, abspath}

-- The directory that `LIST` lists: the argument, unless it is empty or an option.
unfoldable pub list_target : Bytes → Bytes → Bytes
list_target cwd [] = cwd
list_target cwd (c ∷ cs) = if not (c == b'-') then c ∷ cs else cwd

-- The path of an entry, from the directory as given.
unfoldable pub entry_path : ℕ → Bytes → Bytes → Bytes → Bytes
entry_path room cwd [] name = take room (b'/' ∷ (cwd ++ (b'/' ∷ b'/' ∷ name)))
entry_path room cwd (c ∷ cs) name =
    if c == b'/'
    then take room ((c ∷ cs) ++ (b'/' ∷ name))
    else take room (b'/' ∷ (cwd ++ (b'/' ∷ ((c ∷ cs) ++ (b'/' ∷ name)))))

-- `off += len`, with a `size_t`.
abbrev pub add_off : ℤ → ℕ → ℤ
add_off off len = to_off (to_size off + len)

-- The result of a `recv`, read as a `size_t`, and the buffer behind it.
abbrev pub received : Option Bytes → Bytes → ℕ × Bytes
received none buf = (2 ^ 64 - 1, buf)
received (some got) buf = (length got, got)

-- `len == write(...)`, with an `int`.
unfoldable pub is_length : ℤ → ℕ → Bool
is_length (pos n) len = n == len
is_length (negsuc n) len = false

module _ (k : Kernel) where
  unfoldable pub list_line : Stat → Bytes → Bytes
  list_line st name =
      ftp_mode_string st.st_mode
      ++ (codes " 0 0 0 "
          ++ (decimal (k.list_size st)
              ++ (b' ' ∷ (k.list_time st ++ (b' ' ∷ (name ++ codes "\r\n"))))))

  -- One entry; the result of the write is not looked at.
  unfoldable pub list_entry : Bytes → Bytes → M (Unit {0})
  unfolding list_line entry_path
  list_entry p name = do
    cwd ← gets (λ e. e.cwd)
    st ← stat_of k (entry_path (k.path_max + 257) cwd p name)
    on_some st (pure tt) (λ st. do ftp_data_printf k (list_line st name); pure tt)

  -- `while ((ent = readdir(dir)))`
  unfoldable pub list_loop : ℕ → Bytes → M (Unit {0})
  unfolding list_entry
  list_loop zero p = starve
  list_loop (suc fuel) p = do
    ent ← ask readdir k.entries
    on_some ent (pure tt) (λ name. do list_entry p name; list_loop fuel p)

  -- Behind the loop.
  unfoldable pub list_end : M ℤ
  list_end = do
    closed ← ftp_data_close k
    if not (is_zero closed) then (do ret ← ftp_perror k; fails k closedir; pure ret) else (do
      failed ← fails k closedir
      if failed then ftp_perror k else ftp_active_printf k (codes "226 Transfer complete\r\n"))

  unfoldable pub ftp_cmd_list : ℕ → Bytes → M ℤ
  unfolding list_target list_loop list_end
  ftp_cmd_list fuel arg = do
    cwd ← gets (λ e. e.cwd)
    let p = list_target cwd arg
    failed ← fails k (opendir p)
    if failed then ftp_perror k else (do
      opened ← ftp_data_open k
      if not (is_zero opened) then ftp_perror k else (do
        ftp_active_printf k (codes "150 Opening data transfer\r\n")
        list_loop fuel p
        list_end))

  -- `err = ftp_perror(env); ftp_data_close(env); close(fd); return err;`
  unfoldable pub abort_transfer : ℤ → M ℤ
  abort_transfer fd = do err ← ftp_perror k; ftp_data_close k; fails k (close fd); pure err

  -- `err = ftp_perror(env); close(fd); return err;`
  unfoldable pub abort_file : ℤ → M ℤ
  abort_file fd = do err ← ftp_perror k; fails k (close fd); pure err

  unfoldable pub stop_sending : ℤ → M (Option ℤ)
  unfolding abort_transfer
  stop_sending fd = do err ← abort_transfer fd; pure (some err)

  -- The loop of `RETR`: `none` at the end of the file, or the result to return.
  unfoldable pub send_loop : ℕ → ℤ → M (Option ℤ)
  unfolding stop_sending is_length
  send_loop zero fd = starve
  send_loop (suc fuel) fd = do
    data_fd ← gets (λ e. e.data_fd)
    got ← bytes k (read fd k.page_size)
    on_some got (stop_sending fd) (λ buf. if is_empty buf then pure none else (do
      n ← int k (write data_fd buf (length buf))
      if is_length n (length buf) then send_loop fuel fd else stop_sending fd))

  -- Behind the loop, in `RETR`.
  unfoldable pub retr_end : ℤ → Option ℤ → M ℤ
  retr_end fd (some err) = pure err
  retr_end fd none = do
    fails k (close fd)
    closed ← ftp_data_close k
    if not (is_zero closed)
        then ftp_perror k
        else ftp_active_printf k (codes "226 Transfer completed\r\n")

  -- From the `open` on.
  unfoldable pub retr_open : ℕ → Bytes → M ℤ
  unfolding abort_file send_loop retr_end
  retr_open fuel pathbuf = do
    fd ← int k (open_read pathbuf)
    if is_negative fd
        then (do
          text ← observe (errno_text k)
          ftp_active_printf k (codes "550 " ++ (text ++ codes "\r\n")))
        else (do
          told ← ftp_active_printf k (codes "150 Opening data transfer\r\n")
          if not (is_zero told) then (do fails k (close fd); pure failure) else (do
            opened ← ftp_data_open k
            if not (is_zero opened)
                then abort_file fd
                else (do err ← send_loop fuel fd; retr_end fd err)))

  unfoldable pub retr_found : ℕ → Bytes → Stat → M ℤ
  unfolding retr_open
  retr_found fuel pathbuf st =
      if is_dir st.st_mode
      then ftp_active_printf k (codes "550 Not a file\r\n")
      else retr_open fuel pathbuf

  unfoldable pub ftp_cmd_retr : ℕ → Bytes → M ℤ
  unfolding retr_found
  ftp_cmd_retr fuel arg =
      if is_empty arg then ftp_active_printf k (codes "501 Usage: RETR <PATH>\r\n") else (do
        pathbuf ← abspath k arg
        st ← stat_of k pathbuf
        on_some st (ftp_perror k) (retr_found fuel pathbuf))

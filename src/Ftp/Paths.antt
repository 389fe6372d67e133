-- ===== src/Ftp/Paths.antt =====
-- plugin_server/source/ftp/cmd.c: the commands on the working directory and on files by name.
use ps4_hen_plugins.Base.{
  ℕ, zero, suc, ◌-◌, ◌%◌, ◌^◌, Bool, true, false, not, Option, none, some, [], ◌∷◌, ◌++◌, ◌==◌,
  if◌then◌else◌, Bytes, take, strchr, codes, ℤ,
}
use ps4_hen_plugins.Ftp.{
  Call, chmod, remove, mkdir, rmdir, rename, Stat, Kernel, M, ◌>>=◌, ◌>>◌, gets, modify, on_some,
  fails, stat_of,
}
use ps4_hen_plugins.Ftp.Format.{decimal, strtol, ftp_abspath, is_dir}
use ps4_hen_plugins.Ftp.Replies.{ftp_active_printf, ftp_perror}

-- `!arg[0]`
abbrev pub is_empty : Bytes → Bool
is_empty [] = true
is_empty (c ∷ cs) = false

-- The loop of `ftp_cmd_CDUP`: the position of the last slash, from position `i`.
unfoldable pub last_slash : ℕ → Option ℕ → Bytes → Option ℕ
last_slash i found [] = found
last_slash i found (c ∷ cs) = last_slash (suc i) (if c == b'/' then some i else found) cs

-- The directory cut there, or the root where the position is -1 or 0.
unfoldable pub parent : Bytes → Option ℕ → Bytes
parent cwd none = b'/' ∷ []
parent cwd (some zero) = b'/' ∷ []
parent cwd (some (suc n)) = take (suc n) cwd

module _ (k : Kernel) where
  -- `ftp_abspath(env, pathbuf, arg)`
  abbrev pub abspath : Bytes → M Bytes
  abspath arg = gets (λ e. ftp_abspath k.path_max e.cwd arg)

  unfoldable pub ftp_cmd_cdup : Bytes → M ℤ
  unfolding last_slash parent
  ftp_cmd_cdup arg = do
    modify (λ e. record e { cwd = parent e.cwd (last_slash 0 none e.cwd) })
    ftp_active_printf k (codes "250 OK\r\n")

  unfoldable pub ftp_cmd_chmod : Bytes → M ℤ
  ftp_cmd_chmod arg =
      on_some (strchr b' ' arg) (ftp_active_printf k (codes "501 Usage: CHMOD <MODE> <PATH>\r\n"))
        (λ parts. do
          pathbuf ← abspath parts.1
          failed ← fails k (chmod pathbuf (strtol 8 arg))
          if failed then ftp_perror k else ftp_active_printf k (codes "200 OK\r\n"))

  -- The directory to change to is there, or not: the rest of `ftp_cmd_CWD`.
  unfoldable pub change_dir : Bytes → Stat → M ℤ
  change_dir pathbuf st =
      if not (is_dir st.st_mode)
      then ftp_active_printf k (codes "550 No such directory\r\n")
      else (do
        modify (λ e. record e { cwd = take (k.path_max - 1) pathbuf })
        ftp_active_printf k (codes "250 OK\r\n"))

  unfoldable pub ftp_cmd_cwd : Bytes → M ℤ
  unfolding change_dir
  ftp_cmd_cwd arg =
      if is_empty arg then ftp_active_printf k (codes "501 Usage: CWD <PATH>\r\n") else (do
        pathbuf ← abspath arg
        st ← stat_of k pathbuf
        on_some st (ftp_perror k) (change_dir pathbuf))

  -- `DELE`, `MKD` and `RMD`: a usage line, one call on the path, and a reply.
  on_path : Bytes → Bytes → (Bytes → Call) → Bytes → M ℤ
  on_path usage reply call arg = if is_empty arg then ftp_active_printf k usage else (do
    pathbuf ← abspath arg
    failed ← fails k (call pathbuf)
    if failed then ftp_perror k else ftp_active_printf k reply)

  unfoldable pub ftp_cmd_dele : Bytes → M ℤ
  unfolding on_path
  ftp_cmd_dele =
      on_path (codes "501 Usage: DELE <FILENAME>\r\n") (codes "226 File deleted\r\n") remove

  unfoldable pub ftp_cmd_mkd : Bytes → M ℤ
  unfolding on_path
  ftp_cmd_mkd =
      on_path (codes "501 Usage: MKD <DIRNAME>\r\n") (codes "226 Directory created\r\n") mkdir

  unfoldable pub ftp_cmd_rmd : Bytes → M ℤ
  unfolding on_path
  ftp_cmd_rmd =
      on_path (codes "501 Usage: RMD <DIRNAME>\r\n") (codes "226 Directory deleted\r\n") rmdir

  unfoldable pub ftp_cmd_pwd : Bytes → M ℤ
  ftp_cmd_pwd arg = do
    cwd ← gets (λ e. e.cwd)
    ftp_active_printf k (codes "257 \"" ++ (cwd ++ codes "\"\r\n"))

  unfoldable pub ftp_cmd_rnfr : Bytes → M ℤ
  ftp_cmd_rnfr arg =
      if is_empty arg then ftp_active_printf k (codes "501 Usage: RNFR <PATH>\r\n") else (do
        path ← abspath arg
        modify (λ e. record e { rename_path = path })
        st ← stat_of k path
        on_some st (ftp_perror k) (λ _. ftp_active_printf k (codes "350 Awaiting new name\r\n")))

  -- The rest of `ftp_cmd_RNTO`, where the old path is there.
  unfoldable pub rename_to : Bytes → Bytes → M ℤ
  rename_to from arg = do
    pathbuf ← abspath arg
    failed ← fails k (rename from pathbuf)
    if failed then ftp_perror k else ftp_active_printf k (codes "226 Path renamed\r\n")

  unfoldable pub ftp_cmd_rnto : Bytes → M ℤ
  unfolding rename_to
  ftp_cmd_rnto arg =
      if is_empty arg then ftp_active_printf k (codes "501 Usage: RNTO <PATH>\r\n") else (do
        from ← gets (λ e. e.rename_path)
        st ← stat_of k from
        on_some st (ftp_perror k) (λ _. rename_to from arg))

  unfoldable pub ftp_cmd_size : Bytes → M ℤ
  ftp_cmd_size arg =
      if is_empty arg then ftp_active_printf k (codes "501 Usage: SIZE <FILENAME>\r\n") else (do
        pathbuf ← abspath arg
        st ← stat_of k pathbuf
        on_some st (ftp_perror k) (λ st.
            ftp_active_printf k (codes "213 " ++ (decimal (st.st_size % 2 ^ 64) ++ codes "\r\n"))))

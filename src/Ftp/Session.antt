-- ===== src/Ftp/Session.antt =====
-- plugin_server/source/ftp/ftp.c: reading command lines, the table of commands, and a connection.
use ps4_hen_plugins.Base.{
  ℕ, zero, suc, ◌+◌, Option, none, some, List, [], ◌∷◌, ◌++◌, leb, ◌==◌, if◌then◌else◌, Bytes,
  length, take, drop, get_or, strchr, matches, codes, ℤ, pos, negsuc, is_zero, to_size,
}
use ps4_hen_plugins.Ftp.{
  Env, read, write, alloc, Log, Kernel, State, Outcome, M, ◌>>=◌, ◌>>◌, pure, starve, gets, observe,
  on_some, success, failure, fails, int, bytes,
}
use ps4_hen_plugins.Ftp.Paths.{
  ftp_cmd_cdup, ftp_cmd_chmod, ftp_cmd_cwd, ftp_cmd_dele, ftp_cmd_mkd, ftp_cmd_rmd, ftp_cmd_pwd,
  ftp_cmd_rnfr, ftp_cmd_rnto, ftp_cmd_size, is_empty,
}
use ps4_hen_plugins.Ftp.Connection.{
  ftp_cmd_pasv, ftp_cmd_port, ftp_cmd_noop, ftp_cmd_quit, ftp_cmd_rest, ftp_cmd_syst, ftp_cmd_type,
  ftp_cmd_user, ftp_cmd_kill, ftp_cmd_mtrw, ftp_cmd_unavailable, ftp_cmd_unknown, close_positive,
}
use ps4_hen_plugins.Ftp.Transfer.{ftp_cmd_list, ftp_cmd_retr}
use ps4_hen_plugins.Ftp.Store.{ftp_cmd_stor, ftp_cmd_appe}

-- `buffer[i] = c`, within the buffer.
unfoldable pub put : Bytes → ℕ → ℕ → Bytes
put [] i c = []
put (x ∷ xs) zero c = c ∷ xs
put (x ∷ xs) (suc i) c = x ∷ put xs i c

-- What a buffer holds as a C string.
unfoldable pub c_string : Bytes → Bytes
c_string [] = []
c_string (c ∷ cs) = if c == 0 then [] else c ∷ c_string cs

unfoldable pub zeros : ℕ → Bytes
zeros zero = []
zeros (suc n) = 0 ∷ zeros n

-- The buffer of `ftp_readline`: its cells, as many as `bufsize`, and the position.
pub record Buffer : Type 0 where
  pub cells : Bytes
  pub position : ℕ

module _ (k : Kernel) where
  -- `if (position >= bufsize)`: room for 1024 more, or `none` where `realloc` fails.
  unfoldable pub grow : Buffer → M (Option Buffer)
  grow b =
      if leb (length b.cells) b.position
      then (do
        failed ← fails k (alloc (length b.cells + 1024))
        pure (
            if failed
            then none
            else some (record b { cells = b.cells ++ take 1024 (k.fresh_cells (length b.cells)) })))
      else pure (some b)

  -- A byte other than a carriage return or a newline.
  unfoldable pub store_byte : ℕ → Buffer → M (Option Buffer)
  unfolding grow put
  store_byte c b = grow (record { cells = put b.cells b.position c; position = b.position + 1 })

  -- The loop of `ftp_readline`. The result is the line, or `none` for NULL.
  unfoldable pub readline_loop : ℕ → ℤ → Buffer → M (Option Bytes)
  unfolding store_byte put c_string
  readline_loop zero fd b = starve
  readline_loop (suc fuel) fd b = do
    got ← bytes k (read fd 1)
    on_some got
        (do again ← observe k.interrupted; if again then readline_loop fuel fd b else pure none)
        (λ got.
          if is_empty got
          then pure none
          else if get_or got 0 0 == b'\r'
          then readline_loop fuel fd (record { cells = put b.cells b.position 0; position = 0 })
          else if get_or got 0 0 == b'\n'
          then pure (some (c_string b.cells))
          else (do
            grown ← store_byte (get_or got 0 0) b
            on_some grown (pure none) (readline_loop fuel fd)))

  unfoldable pub ftp_readline : ℕ → ℤ → M (Option Bytes)
  unfolding readline_loop zeros
  ftp_readline fuel fd = do
    failed ← fails k (alloc 1024)
    if failed
        then pure none
        else readline_loop fuel fd (record { cells = zeros 1024; position = 0 })

  -- The table, in its order.
  unfoldable pub commands : ℕ → List (Bytes × (Bytes → M ℤ))
  commands fuel =
      (codes "APPE", ftp_cmd_appe k fuel)
      ∷ (codes "CDUP", ftp_cmd_cdup k)
      ∷ (codes "CWD", ftp_cmd_cwd k)
      ∷ (codes "DELE", ftp_cmd_dele k)
      ∷ (codes "LIST", ftp_cmd_list k fuel)
      ∷ (codes "MKD", ftp_cmd_mkd k)
      ∷ (codes "NOOP", ftp_cmd_noop k)
      ∷ (codes "PASV", ftp_cmd_pasv k)
      ∷ (codes "PORT", ftp_cmd_port k)
      ∷ (codes "PWD", ftp_cmd_pwd k)
      ∷ (codes "QUIT", ftp_cmd_quit k)
      ∷ (codes "REST", ftp_cmd_rest k)
      ∷ (codes "RETR", ftp_cmd_retr k fuel)
      ∷ (codes "RMD", ftp_cmd_rmd k)
      ∷ (codes "RNFR", ftp_cmd_rnfr k)
      ∷ (codes "RNTO", ftp_cmd_rnto k)
      ∷ (codes "SIZE", ftp_cmd_size k)
      ∷ (codes "STOR", ftp_cmd_stor k fuel)
      ∷ (codes "SYST", ftp_cmd_syst k)
      ∷ (codes "TYPE", ftp_cmd_type k)
      ∷ (codes "USER", ftp_cmd_user k)
      ∷ (codes "KILL", ftp_cmd_kill k)
      ∷ (codes "MTRW", ftp_cmd_mtrw k)
      ∷ (codes "CHMOD", ftp_cmd_chmod k)
      ∷ (codes "XCUP", ftp_cmd_cwd k)
      ∷ (codes "XMKD", ftp_cmd_mkd k)
      ∷ (codes "XPWD", ftp_cmd_pwd k)
      ∷ (codes "XRMD", ftp_cmd_rmd k)
      ∷ (codes "XRCP", ftp_cmd_unavailable k)
      ∷ (codes "XRSQ", ftp_cmd_unavailable k)
      ∷ (codes "XSEM", ftp_cmd_unavailable k)
      ∷ (codes "XSEN", ftp_cmd_unavailable k)
      ∷ []

  -- The first entry of that name, or `ftp_cmd_unknown`.
  unfoldable pub dispatch : List (Bytes × (Bytes → M ℤ)) → Bytes → Bytes → M ℤ
  dispatch [] name arg = ftp_cmd_unknown k arg
  dispatch ((entry, func) ∷ rest) name arg =
      if matches name entry then func arg else dispatch rest name arg

  -- The name of the command, up to the first space, and its argument.
  abbrev pub split_command : Bytes → Bytes × Bytes
  split_command line = elim (strchr b' ' line) [ none ↦ (line, []) | some parts ↦ parts ]

  unfoldable pub ftp_execute : ℕ → Bytes → M ℤ
  unfolding dispatch commands
  ftp_execute fuel line = let (name, arg) = split_command line in dispatch (commands fuel) name arg

  -- `char msg[0x100]`: the banner is cut to it, and the second line is added whole.
  unfoldable pub ftp_greet : M ℤ
  ftp_greet = do
    fd ← gets (λ e. e.active_fd)
    let msg = take 255 k.banner ++ codes "220 Service is ready\r\n"
    n ← int k (write fd msg (length msg))
    pure (if to_size n == length msg then success else failure)

  -- `if (!strncmp(line, "SITE ", 5)) cmd += 5;`
  unfoldable pub skip_site : Bytes → Bytes
  skip_site line = if matches (take 5 line) (codes "SITE ") then drop 5 line else line

  -- `while (running)`; one fuel for the commands and the steps within each.
  unfoldable pub command_loop : ℕ → M (Unit {0})
  unfolding ftp_readline ftp_execute skip_site
  command_loop zero = starve
  command_loop (suc fuel) = do
    fd ← gets (λ e. e.active_fd)
    line ← ftp_readline fuel fd
    on_some line (pure tt) (λ line. do
      result ← ftp_execute fuel (skip_site line)
      if is_zero result then command_loop fuel else pure tt)

  unfoldable pub close_all : M (Unit {0})
  unfolding close_positive
  close_all = do
    active_fd ← gets (λ e. e.active_fd)
    close_positive k active_fd
    passive_fd ← gets (λ e. e.passive_fd)
    close_positive k passive_fd
    data_fd ← gets (λ e. e.data_fd)
    close_positive k data_fd

  abbrev pub initial_env : ℤ → Env
  initial_env fd = record {
    data_fd = negsuc 0;
    active_fd = fd;
    passive_fd = negsuc 0;
    cwd = b'/' ∷ [];
    type = b'A';
    data_offset = pos 0;
    rename_path = [];
    data_addr = record { s_addr = 0; sin_port = 0 };
  }

  -- The thread of a connection, from its first call on.
  unfoldable pub ftp_thread : ℕ → ℤ → Log → Outcome (Unit {0}) × State
  unfolding ftp_greet command_loop close_all
  ftp_thread fuel fd log =
      let run : M (Unit {0}) = do
        greeted ← ftp_greet
        if is_zero greeted then command_loop fuel else pure tt
        close_all
      in run (record { env = initial_env fd; log = log })

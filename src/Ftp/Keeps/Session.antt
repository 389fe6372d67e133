-- ===== src/Ftp/Keeps/Session.antt =====
-- plugin_server/source/ftp: the working directory stays absolute through transfers, commands and
-- whole connections.
use ps4_hen_plugins.Base.{
  ℕ, zero, suc, ◌<◌, List, [], ◌∷◌, refl, arith, if◌then◌else◌, Bytes, matches, ℤ, is_zero,
}
use ps4_hen_plugins.Ftp.{Log, Kernel, M, ◌>>=◌, ◌>>◌, pure}
use ps4_hen_plugins.Ftp.Keeps.{
  Preserves, Preserves-bind, Preserves-if, Preserves-on_some, Preserves-pure, Preserves-starve,
  Preserves-gets, preserves_rules,
}
use ps4_hen_plugins.Ftp.Keeps.Transfer
use ps4_hen_plugins.Ftp.Keeps.Directory.{
  at_data_fd, printf-Preserves, perror-Preserves, IsAbsolute, close_positive-Preserves, elsewhere,
  ftp_cmd_cdup-Preserves, ftp_cmd_chmod-Preserves, ftp_cmd_cwd-Preserves, ftp_cmd_dele-Preserves,
  ftp_cmd_kill-Preserves, ftp_cmd_mkd-Preserves, ftp_cmd_mtrw-Preserves, ftp_cmd_noop-Preserves,
  ftp_cmd_pasv-Preserves, ftp_cmd_port-Preserves, ftp_cmd_pwd-Preserves, ftp_cmd_quit-Preserves,
  ftp_cmd_rest-Preserves, ftp_cmd_rmd-Preserves, ftp_cmd_rnfr-Preserves, ftp_cmd_rnto-Preserves,
  ftp_cmd_size-Preserves, ftp_cmd_syst-Preserves, ftp_cmd_type-Preserves, ftp_cmd_user-Preserves,
  ftp_cmd_unavailable-Preserves, ftp_cmd_unknown-Preserves,
}
use ps4_hen_plugins.Ftp.Replies.{ftp_active_printf, ftp_perror}
use ps4_hen_plugins.Ftp.Transfer.{ftp_cmd_list, ftp_cmd_retr}
use ps4_hen_plugins.Ftp.Store.{stor_open, ftp_cmd_stor, append_offset, ftp_cmd_appe}
use ps4_hen_plugins.Ftp.Session.{
  Buffer, grow, store_byte, readline_loop, ftp_readline, commands, dispatch, ftp_execute, ftp_greet,
  command_loop, close_all, initial_env, ftp_thread, split_command, skip_site,
}

module _ (k : Kernel) (room : 1 < k.path_max) where
  abbrev Safe : {A : Type 0} → M A → Type 0
  Safe = Preserves (IsAbsolute k.path_max)

  printf-Safe : (msg : Bytes) → Safe (ftp_active_printf k msg)
  printf-Safe = printf-Preserves k room

  perror-Safe : Safe (ftp_perror k)
  perror-Safe = perror-Preserves k room

  ftp_cmd_list-Preserves : (fuel : ℕ) (arg : Bytes) → Safe (ftp_cmd_list k fuel arg)
  ftp_cmd_list-Preserves =
      Transfer.ftp_cmd_list-Preserves k (IsAbsolute k.path_max) (at_data_fd k room)

  ftp_cmd_retr-Preserves : (fuel : ℕ) (arg : Bytes) → Safe (ftp_cmd_retr k fuel arg)
  ftp_cmd_retr-Preserves =
      Transfer.ftp_cmd_retr-Preserves k (IsAbsolute k.path_max) (at_data_fd k room)

  stor_open-Preserves : (fuel : ℕ) (off : ℤ) (path : Bytes) → Safe (stor_open k fuel off path)
  stor_open-Preserves = Transfer.stor_open-Preserves k (IsAbsolute k.path_max) (at_data_fd k room)

  ftp_cmd_stor-Preserves : (fuel : ℕ) (arg : Bytes) → Safe (ftp_cmd_stor k fuel arg)
  unfolding ftp_cmd_stor
  ftp_cmd_stor-Preserves fuel arg =
      search (preserves_rules, elsewhere k room, printf-Safe, stor_open-Preserves) depth 12

  append_offset-Preserves : (arg : Bytes) → Safe (append_offset k arg)
  unfolding append_offset
  append_offset-Preserves arg = search (preserves_rules, elsewhere k room, perror-Safe) depth 12

  ftp_cmd_appe-Preserves : (fuel : ℕ) (arg : Bytes) → Safe (ftp_cmd_appe k fuel arg)
  unfolding ftp_cmd_appe
  ftp_cmd_appe-Preserves fuel arg =
      search (preserves_rules, printf-Safe, append_offset-Preserves, ftp_cmd_stor-Preserves) depth
        12

  grow-Preserves : (b : Buffer) → Safe (grow k b)
  unfolding grow
  grow-Preserves b = search preserves_rules depth 9

  readline_loop-Preserves : (fuel : ℕ) (fd : ℤ) (b : Buffer) → Safe (readline_loop k fuel fd b)
  unfolding readline_loop store_byte
  readline_loop-Preserves zero fd b = Preserves-starve
  readline_loop-Preserves (suc fuel) fd b =
      search (preserves_rules, grow-Preserves, readline_loop-Preserves fuel fd) depth 12

  ftp_readline-Preserves : (fuel : ℕ) (fd : ℤ) → Safe (ftp_readline k fuel fd)
  unfolding ftp_readline
  ftp_readline-Preserves fuel fd = search (preserves_rules, readline_loop-Preserves)

  -- Every function of a table keeps the working directory absolute.
  abbrev AllSafe : List (Bytes × (Bytes → M ℤ)) → Type 0
  AllSafe [] = Unit
  AllSafe ((_, f) ∷ rest) = ((arg : Bytes) → Safe (f arg)) × AllSafe rest

  commands-Safe : (fuel : ℕ) → AllSafe (commands k fuel)
  unfolding commands
  commands-Safe fuel = (
    ftp_cmd_appe-Preserves fuel,
    (
      ftp_cmd_cdup-Preserves k room,
      (
        ftp_cmd_cwd-Preserves k room,
        (
          ftp_cmd_dele-Preserves k room,
          (
            ftp_cmd_list-Preserves fuel,
            (
              ftp_cmd_mkd-Preserves k room,
              (
                ftp_cmd_noop-Preserves k room,
                (
                  ftp_cmd_pasv-Preserves k room,
                  (
                    ftp_cmd_port-Preserves k room,
                    (
                      ftp_cmd_pwd-Preserves k room,
                      (
                        ftp_cmd_quit-Preserves k room,
                        (
                          ftp_cmd_rest-Preserves k room,
                          (
                            ftp_cmd_retr-Preserves fuel,
                            (
                              ftp_cmd_rmd-Preserves k room,
                              (
                                ftp_cmd_rnfr-Preserves k room,
                                (
                                  ftp_cmd_rnto-Preserves k room,
                                  (
                                    ftp_cmd_size-Preserves k room,
                                    (
                                      ftp_cmd_stor-Preserves fuel,
                                      (
                                        ftp_cmd_syst-Preserves k room,
                                        (
                                          ftp_cmd_type-Preserves k room,
                                          (
                                            ftp_cmd_user-Preserves k room,
                                            (
                                              ftp_cmd_kill-Preserves k room,
                                              (
                                                ftp_cmd_mtrw-Preserves k room,
                                                (
                                                  ftp_cmd_chmod-Preserves k room,
                                                  (
                                                    ftp_cmd_cwd-Preserves k room,
                                                    (
                                                      ftp_cmd_mkd-Preserves k room,
                                                      (
                                                        ftp_cmd_pwd-Preserves k room,
                                                        (
                                                          ftp_cmd_rmd-Preserves k room,
                                                          (
                                                            ftp_cmd_unavailable-Preserves k room,
                                                            (
                                                            ftp_cmd_unavailable-Preserves k room,
                                                            (
                                                            ftp_cmd_unavailable-Preserves k room,
                                                            (
                                                            ftp_cmd_unavailable-Preserves k room,
                                                            tt,
                                                            ),
                                                            ),
                                                            ),
                                                          ),
                                                        ),
                                                      ),
                                                    ),
                                                  ),
                                                ),
                                              ),
                                            ),
                                          ),
                                        ),
                                      ),
                                    ),
                                  ),
                                ),
                              ),
                            ),
                          ),
                        ),
                      ),
                    ),
                  ),
                ),
              ),
            ),
          ),
        ),
      ),
    ),
  )

  dispatch-Preserves :
      (table : List (Bytes × (Bytes → M ℤ))) (name arg : Bytes)
      → AllSafe table
      → Safe (dispatch k table name arg)
  unfolding dispatch
  dispatch-Preserves [] name arg h = ftp_cmd_unknown-Preserves k room arg
  dispatch-Preserves ((entry, f) ∷ rest) name arg h =
      Preserves-if (matches name entry) _ _ (h.0 arg) (dispatch-Preserves rest name arg h.1)

  -- Every command line, whatever it holds and however the system answers, leaves the working
  -- directory an absolute path that fits its array, if it was one and the array has room for more
  -- than one byte.
  pub ftp_execute-Preserves :
      (fuel : ℕ) (line : Bytes) → Preserves (IsAbsolute k.path_max) (ftp_execute k fuel line)
  unfolding ftp_execute
  ftp_execute-Preserves fuel line =
      dispatch-Preserves (commands k fuel) (split_command k line).0 (split_command k line).1
        (commands-Safe fuel)

  command_loop-Preserves : (fuel : ℕ) → Safe (command_loop k fuel)
  unfolding command_loop
  command_loop-Preserves zero = Preserves-starve
  command_loop-Preserves (suc fuel) = Preserves-bind _ _ (Preserves-gets _) (λ fd.
      Preserves-bind _ _ (ftp_readline-Preserves fuel fd) (λ line.
        Preserves-on_some line _ _ (Preserves-pure _) (λ line.
          Preserves-bind _ _ (ftp_execute-Preserves fuel (skip_site k line)) (λ result.
            Preserves-if (is_zero result) _ _ (command_loop-Preserves fuel) (Preserves-pure _)))))

  thread-Preserves :
      (fuel : ℕ)
      → Safe (do
        greeted ← ftp_greet k
        if is_zero greeted then command_loop k fuel else pure tt
        close_all k)
  unfolding ftp_greet close_all
  thread-Preserves fuel =
      search (preserves_rules, command_loop-Preserves, close_positive-Preserves k room) depth 20

  -- Whatever a client sends, whenever its thread ends and however the system answers, the working
  -- directory of the client is then an absolute path that fits its array, which has room for more
  -- than one byte.
  pub ftp_thread-IsAbsolute :
      (fuel : ℕ) (fd : ℤ) (log : Log) → IsAbsolute k.path_max (ftp_thread k fuel fd log).1.env
  unfolding ftp_thread
  ftp_thread-IsAbsolute fuel fd log =
      (thread-Preserves fuel).at (record { env = initial_env k fd; log = log })
        (record { rooted = refl; fits = omega arith })

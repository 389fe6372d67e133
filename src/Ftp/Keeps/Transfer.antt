-- ===== src/Ftp/Keeps/Transfer.antt =====
-- plugin_server/source/ftp/cmd.c: transfers keep every property of the client's state that does not
-- depend on the descriptor of the data connection.
use ps4_hen_plugins.Base.{ℕ, zero, suc, Option, none, some, Bytes, length, ℤ}
use ps4_hen_plugins.Ftp.{Env, Kernel, M, modify}
use ps4_hen_plugins.Ftp.Keeps.{
  Preserves, Preserves-modify, Preserves-bind, Preserves-if, Preserves-on_some, Preserves-pure,
  Preserves-starve, Preserves-ask, Preserves-gets, preserves_rules,
}
use ps4_hen_plugins.Ftp.Replies.{
  ftp_active_printf, ftp_perror, ftp_data_printf, ftp_data_open, ftp_data_read, ftp_data_close,
}
use ps4_hen_plugins.Ftp.Paths.{is_empty}
use ps4_hen_plugins.Ftp.Transfer.{
  is_length, list_entry, list_loop, list_end, ftp_cmd_list, abort_transfer, abort_file,
  stop_sending, send_loop, retr_end, retr_open, retr_found, ftp_cmd_retr,
}
use ps4_hen_plugins.Ftp.Store.{Stored, stored, aborted, store_loop, stor_end, stor_open}

module _ (k : Kernel) (P : Env → Type 0)
    (moves : (e : Env) (fd : ℤ) → P e → P (record e { data_fd = fd })) where
  abbrev Safe : {A : Type 0} → M A → Type 0
  Safe = Preserves P

  pub printf-Safe : (text : Bytes) → Safe (ftp_active_printf k text)
  unfolding ftp_active_printf
  printf-Safe text = search preserves_rules

  pub data_printf-Safe : (text : Bytes) → Safe (ftp_data_printf k text)
  unfolding ftp_data_printf
  data_printf-Safe text = search preserves_rules

  pub perror-Safe : Safe (ftp_perror k)
  unfolding ftp_perror
  perror-Safe = search (preserves_rules, printf-Safe)

  moved : (fd : ℤ) → Safe (modify (λ e. record e { data_fd = fd }))
  moved fd = Preserves-modify _ (λ e h. moves e fd h)

  pub data_open-Safe : Safe (ftp_data_open k)
  unfolding ftp_data_open
  data_open-Safe = search (preserves_rules, moved) depth 9

  pub data_close-Safe : Safe (ftp_data_close k)
  unfolding ftp_data_close
  data_close-Safe = search preserves_rules

  pub data_read-Safe : (n : ℕ) → Safe (ftp_data_read k n)
  unfolding ftp_data_read
  data_read-Safe n = search preserves_rules

  list_entry-Preserves : (p name : Bytes) → Safe (list_entry k p name)
  unfolding list_entry
  list_entry-Preserves p name = search (preserves_rules, data_printf-Safe) depth 9

  list_loop-Preserves : (fuel : ℕ) (p : Bytes) → Safe (list_loop k fuel p)
  unfolding list_loop
  list_loop-Preserves zero p = Preserves-starve
  list_loop-Preserves (suc fuel) p = Preserves-bind _ _ (Preserves-ask _ _) (λ ent.
      Preserves-on_some ent _ _ (Preserves-pure _) (λ name.
        Preserves-bind _ _ (list_entry-Preserves p name) (λ _. list_loop-Preserves fuel p)))

  list_end-Preserves : Safe (list_end k)
  unfolding list_end
  list_end-Preserves = search (preserves_rules, printf-Safe, perror-Safe, data_close-Safe) depth 12

  pub ftp_cmd_list-Preserves : (fuel : ℕ) (arg : Bytes) → Safe (ftp_cmd_list k fuel arg)
  unfolding ftp_cmd_list
  ftp_cmd_list-Preserves fuel arg =
      search
        (
          preserves_rules, printf-Safe, perror-Safe, data_open-Safe, list_loop-Preserves,
          list_end-Preserves,
        )
        depth 20

  abort_transfer-Preserves : (fd : ℤ) → Safe (abort_transfer k fd)
  unfolding abort_transfer
  abort_transfer-Preserves fd = search (preserves_rules, perror-Safe, data_close-Safe) depth 9

  abort_file-Preserves : (fd : ℤ) → Safe (abort_file k fd)
  unfolding abort_file
  abort_file-Preserves fd = search (preserves_rules, perror-Safe) depth 9

  stop_sending-Preserves : (fd : ℤ) → Safe (stop_sending k fd)
  unfolding stop_sending
  stop_sending-Preserves fd = search (preserves_rules, abort_transfer-Preserves)

  send_loop-Preserves : (fuel : ℕ) (fd : ℤ) → Safe (send_loop k fuel fd)
  unfolding send_loop
  send_loop-Preserves zero fd = Preserves-starve
  send_loop-Preserves (suc fuel) fd = Preserves-bind _ _ (Preserves-gets _) (λ data_fd.
      Preserves-bind _ _ (Preserves-ask _ _) (λ got.
        Preserves-on_some got _ _ (stop_sending-Preserves fd) (λ buf.
          Preserves-if (is_empty buf) _ _ (Preserves-pure _) (
            Preserves-bind _ _ (Preserves-ask _ _) (λ n.
              Preserves-if (is_length n (length buf)) _ _ (send_loop-Preserves fuel fd)
                (stop_sending-Preserves fd))))))

  retr_end-Preserves : (fd : ℤ) (r : Option ℤ) → Safe (retr_end k fd r)
  unfolding retr_end
  retr_end-Preserves fd (some err) = Preserves-pure err
  retr_end-Preserves fd none =
      search (preserves_rules, printf-Safe, perror-Safe, data_close-Safe) depth 9

  pub retr_open-Preserves : (fuel : ℕ) (path : Bytes) → Safe (retr_open k fuel path)
  unfolding retr_open
  retr_open-Preserves fuel path =
      search
        (
          preserves_rules, printf-Safe, data_open-Safe, abort_file-Preserves, send_loop-Preserves,
          retr_end-Preserves,
        )
        depth 20

  pub ftp_cmd_retr-Preserves : (fuel : ℕ) (arg : Bytes) → Safe (ftp_cmd_retr k fuel arg)
  unfolding ftp_cmd_retr retr_found
  ftp_cmd_retr-Preserves fuel arg =
      search (preserves_rules, printf-Safe, perror-Safe, retr_open-Preserves) depth 12

  store_loop-Preserves : (fuel : ℕ) (fd off : ℤ) (buf : Bytes) → Safe (store_loop k fuel fd off buf)
  unfolding store_loop
  store_loop-Preserves zero fd off buf = Preserves-starve
  store_loop-Preserves (suc fuel) fd off buf =
      search (preserves_rules, data_read-Safe, abort_transfer-Preserves, store_loop-Preserves fuel)
        depth 12

  stor_end-Preserves : (fd : ℤ) (r : Stored) → Safe (stor_end k fd r)
  unfolding stor_end
  stor_end-Preserves fd (aborted err) = Preserves-pure err
  stor_end-Preserves fd (stored off) =
      search (preserves_rules, printf-Safe, perror-Safe, data_close-Safe, abort_transfer-Preserves)
        depth 12

  pub stor_open-Preserves : (fuel : ℕ) (off : ℤ) (path : Bytes) → Safe (stor_open k fuel off path)
  unfolding stor_open
  stor_open-Preserves fuel off path =
      search
        (
          preserves_rules, printf-Safe, perror-Safe, data_open-Safe, abort_file-Preserves,
          store_loop-Preserves, stor_end-Preserves,
        )
        depth 20

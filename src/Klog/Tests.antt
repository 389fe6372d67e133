-- ===== src/Klog/Tests.antt =====
-- plugin_server/source/klog.c: the theorems at small inputs.
use ps4_hen_plugins.Base.{true, false, none, some, List, [], ◌∷◌, ◌≡◌, refl, ◌==◌, negsuc}
use ps4_hen_plugins.Klog.Serve.{
  Select, is_ready, returned, fd_set, write_clients, sent_to, send_byte, loop_test, read_file,
  accept_client, serve_turn, close_clients, served_next, serve_turns, serve_file_while_connected,
}
use ps4_hen_plugins.Klog.Disk.{some_bytes, read_failed, Turn, idle, klog_to_disk_thread}
use ps4_hen_plugins.Klog.Files.{IsTidy, klog_to_disk_thread-IsTidy}

-- A client comes, a byte is sent to it, and it goes while another is there.
abbrev turns : List Select
turns =
    is_ready (record { accept = some (some 5); read = none; writes = λ fd. true })
    ∷ (is_ready (record { accept = some (some 4); read = some (some 65); writes = λ fd. fd == 4 })
        ∷ (is_ready (record { accept = none; read = some none; writes = λ fd. true }) ∷ []))

served :
    serve_file_while_connected true turns
    ≡ returned (negsuc 0) (record {
      output_set = [];
      nb_connections = 1;
      accepted = 5 ∷ (4 ∷ []);
      closed = 5 ∷ (4 ∷ []);
      sent = (4, 65) ∷ [];
    })
unfolding serve_file_while_connected serve_turns served_next serve_turn accept_client read_file
    loop_test send_byte write_clients sent_to fd_set close_clients
served = refl

abbrev log_turns : List Turn
log_turns =
    record {
      disk_check = false;
      disk_check_stop = false;
      fopen = some 9;
      open_klog = some 3;
      reading = some_bytes (65 ∷ []);
    }
    ∷ (record {
      disk_check = true;
      disk_check_stop = true;
      fopen = none;
      open_klog = none;
      reading = read_failed;
    }
        ∷ [])

klog_to_disk_thread-IsTidy_example : IsTidy (klog_to_disk_thread log_turns idle)
klog_to_disk_thread-IsTidy_example = klog_to_disk_thread-IsTidy log_turns

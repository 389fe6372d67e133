-- ===== src/Ftp/Tests.antt =====
-- plugin_server/source/ftp: the theorems for systems that answer in a fixed way.
mod Servers
mod Transfers
use ps4_hen_plugins.Base.{
  ℕ, ◌≤◌, true, false, Option, none, some, List, [], ◌∷◌, ◌≡◌, refl, arith, Bytes, length, drop,
  get_or, codes, ℤ, pos, negsuc,
}
use ps4_hen_plugins.Ftp.{Env, Call, write, Log, Kernel, State, returned, starved, ◌>>=◌}
use ps4_hen_plugins.Ftp.Format.{is_dir, file_type}
use ps4_hen_plugins.Ftp.Connection.{passive_reply, ftp_cmd_port}
use ps4_hen_plugins.Ftp.Paths.{ftp_cmd_cwd, ftp_cmd_cdup}
use ps4_hen_plugins.Ftp.Transfer.{send_loop}
use ps4_hen_plugins.Ftp.Store.{store_loop, ftp_cmd_stor}
use ps4_hen_plugins.Ftp.Session.{ftp_execute, ftp_readline, ftp_thread}
use ps4_hen_plugins.Ftp.Keeps.{Preserves}
use ps4_hen_plugins.Ftp.Keeps.Directory.{IsAbsolute}
use ps4_hen_plugins.Ftp.Keeps.Session.{ftp_execute-Preserves}
use ps4_hen_plugins.Ftp.Keeps.Offset.{ftp_cmd_stor-data_offset}
use ps4_hen_plugins.Ftp.Ports.{ftp_cmd_port-passive_reply}
use ps4_hen_plugins.Ftp.Sending.{
  HasReturned, same, Delivers, ends, delivers, written, joined, store_loop-starved,
}
use ps4_hen_plugins.Ftp.Receiving.{Receives}
use ps4_hen_plugins.Ftp.Upload.{Accepts, last_cut, ftp_cmd_stor-written}
use ps4_hen_plugins.Ftp.Download.{Opens, ftp_cmd_retr-written}
use ps4_hen_plugins.Ftp.{accept, Stat}
use ps4_hen_plugins.Ftp.Store.{stored}
use ps4_hen_plugins.Ftp.Transfer.{ftp_cmd_retr}
use ps4_hen_plugins.Ftp.{connect}
use ps4_hen_plugins.Ftp.Replies.{ftp_data_open}
use ps4_hen_plugins.Ftp.Connection.{ftp_cmd_pasv}
use ps4_hen_plugins.Ftp.Keeps.Address.{ftp_data_open-ftp_cmd_pasv}
use ps4_hen_plugins.Ftp.Lines.{IsPlain, gives, gives_end, ftp_readline-Gives}
use ps4_hen_plugins.Ftp.Directories.{ftp_cmd_cdup-ftp_cmd_cwd}

-- Every path is a directory and every call succeeds, but for what reads and writes return.
abbrev pub system : (Log → Call → Option Bytes) → (Log → Call → ℤ) → Kernel
system answers ints = record {
  succeeds = λ _ _. true;
  returns_int = ints;
  returns_bytes = answers;
  stats = λ _ _. some (record { st_mode = 0x41ff; st_size = 7 });
  names = λ _ _. some (0x0100007f, 0x1500);
  entries = λ _. none;
  error_text = λ _. some (codes "No such file");
  list_time = λ _. codes "Jan  1 00:00";
  list_size = λ st. st.st_size;
  interrupted = λ _. false;
  fresh_cells = λ _. [];
  path_max = 1024;
  page_size = 4096;
  banner = codes "220-hello\r\n";
}

-- The answer at the position that the number of calls so far gives.
abbrev pub in_turn : List Bytes → Log → Call → Option Bytes
in_turn answers log c = some (get_or answers (length log) [])

-- Descriptors are 5, and a write takes all that it is given.
abbrev pub takes_all : Log → Call → ℤ
takes_all log (write fd text n) = pos n
takes_all log _ = pos 5

abbrev pub env : Bytes → Env
env cwd = record {
  data_fd = pos 4;
  active_fd = pos 3;
  passive_fd = negsuc 0;
  cwd = cwd;
  type = b'I';
  data_offset = pos 9;
  rename_path = [];
  data_addr = record { s_addr = 0; sin_port = 0 };
}

abbrev state : State
state = record { env = env (codes "/data"); log = [] }

abbrev pub plain_system : Kernel
plain_system = system (in_turn []) takes_all

ftp_execute-Preserves_example :
    Preserves (IsAbsolute 1024) (ftp_execute plain_system 3 (codes "CWD game"))
ftp_execute-Preserves_example =
    ftp_execute-Preserves plain_system (omega arith) 3 (codes "CWD game")

ftp_cmd_stor-data_offset_example :
    (ftp_cmd_stor plain_system 2 (codes "file") state).1.env.data_offset ≡ pos 0
ftp_cmd_stor-data_offset_example = ftp_cmd_stor-data_offset plain_system 2 (codes "file") state

ftp_cmd_port-passive_reply_example :
    (ftp_cmd_port plain_system (drop 27 (passive_reply 0x0100007f 0x1500)) state).1.env.data_addr
    ≡ record { s_addr = 0x0100007f; sin_port = 0x1500 }
ftp_cmd_port-passive_reply_example =
    ftp_cmd_port-passive_reply plain_system state 0x0100007f 0x1500 (omega arith) (omega arith) refl

ftp_cmd_cdup-ftp_cmd_cwd_example :
    ((ftp_cmd_cwd plain_system (codes "game") >>= (λ _. ftp_cmd_cdup plain_system []))
      state).1.env.cwd
    ≡ codes "/data"
unfolding is_dir file_type
ftp_cmd_cdup-ftp_cmd_cwd_example =
    ftp_cmd_cdup-ftp_cmd_cwd plain_system state b'/' (codes "data") b'g' (codes "ame") []
      (record { st_mode = 0x41ff; st_size = 7 }) refl (refl, (refl, (refl, (refl, tt))))
      (omega arith) refl refl

-- A connection and a file that fail always.
abbrev broken : Kernel
broken = system (λ _ _. none) (λ _ _. negsuc 0)

store_loop-starved_example :
    (store_loop broken 100 (pos 5) (pos 0) [] (record { env = env (codes "/"); log = [] })).0
    ≡ starved
store_loop-starved_example =
    store_loop-starved broken (pos 5) 100 (pos 0) [] (env (codes "/")) [] (λ _ _ _. refl)
      (λ _ _ _. refl)

-- A connection that sends `PWD` and the end of a line.
abbrev typed : Kernel
typed =
    system (in_turn ([] ∷ codes "P" ∷ codes "W" ∷ codes "D" ∷ codes "\r" ∷ codes "\n" ∷ []))
      takes_all

letter-IsPlain : (c : ℕ) → b'A' ≤ c → IsPlain c
letter-IsPlain c h = record {
  not_nul = ground arith;
  not_return = ground arith;
  not_newline = ground arith;
}

ftp_readline-Gives_example :
    (ftp_readline typed 5 (pos 3) (record { env = env (codes "/"); log = [] })).0
    ≡ returned (some (codes "PWD"))
ftp_readline-Gives_example =
    ftp_readline-Gives typed (pos 3) (env (codes "/")) 5 (codes "PWD") [] refl
      (gives refl (gives refl (gives refl (gives_end refl refl))))
      (
        letter-IsPlain b'P' (omega arith),
        (letter-IsPlain b'W' (omega arith), (letter-IsPlain b'D' (omega arith), tt)),
      )
      (omega arith) (omega arith)

-- A state with an address from `PORT`.
abbrev addressed : State
addressed = record {
  env = record (env (codes "/")) { data_addr = record { s_addr = 0x0100007f; sin_port = 0x1500 } };
  log = [];
}

ftp_data_open-ftp_cmd_pasv_example :
    let t = (ftp_cmd_pasv plain_system [] addressed).1 in
    (ftp_data_open plain_system t).1.log
    ≡ connect t.env.data_fd (record { s_addr = 0x0100007f; sin_port = 0x1500 }) ∷ t.log
ftp_data_open-ftp_cmd_pasv_example = ftp_data_open-ftp_cmd_pasv plain_system [] addressed refl

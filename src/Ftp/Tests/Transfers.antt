-- ===== src/Ftp/Tests/Transfers.antt =====
-- plugin_server/source/ftp/cmd.c: transfers of a file of two chunks.
use ps4_hen_plugins.Base.{some, [], ◌∷◌, ◌≡◌, refl, arith, codes, ℤ, pos}
use ps4_hen_plugins.Ftp.{Call, write, Log, Kernel}
use ps4_hen_plugins.Ftp.Format.{ftp_abspath, is_dir, file_type}
use ps4_hen_plugins.Ftp.Store.{ftp_cmd_stor}
use ps4_hen_plugins.Ftp.Sending.{HasReturned, same, Delivers, ends, delivers, written, joined}
use ps4_hen_plugins.Ftp.Receiving.{Receives}
use ps4_hen_plugins.Ftp.Upload.{Accepts, last_cut, ftp_cmd_stor-written}
use ps4_hen_plugins.Ftp.Download.{Opens, ftp_cmd_retr-written}
use ps4_hen_plugins.Ftp.{accept, Stat}
use ps4_hen_plugins.Ftp.Transfer.{ftp_cmd_retr}
use ps4_hen_plugins.Ftp.Tests.{system, in_turn, takes_all, env}

-- A file of two chunks.
abbrev two_chunks : Kernel
two_chunks = system (in_turn (codes "ab" ∷ [] ∷ codes "c" ∷ [] ∷ [] ∷ [])) takes_all

two_chunks-Delivers : Delivers two_chunks (pos 5) (env (codes "/")) (codes "ab" ∷ codes "c" ∷ []) []
two_chunks-Delivers = delivers refl refl (delivers refl refl (ends refl))

-- A data connection that gives two chunks, and the file takes them.
two_chunks-Receives : Receives two_chunks (pos 5) (env (codes "/")) (codes "ab" ∷ codes "c" ∷ []) []
two_chunks-Receives =
    Receives.receives refl refl (omega arith)
      (Receives.receives refl refl (omega arith) (Receives.ends refl))

abbrev accepts : Log → Call → ℤ
accepts log (write fd text n) = pos n
accepts log (accept fd) = pos 6
accepts log _ = pos 5

abbrev a_file : Stat
a_file = record { st_mode = 0x81a4; st_size = 3 }

-- A system with a file of two chunks, which the four calls that open the transfer come before.
abbrev file_system : Kernel
file_system =
    record (system (in_turn ([] ∷ [] ∷ [] ∷ [] ∷ codes "ab" ∷ [] ∷ codes "c" ∷ [] ∷ [] ∷ []))
      accepts) { stats = λ _ _. some a_file }

file_system-Opens : Opens file_system (env (codes "/")) (codes "/x") [] a_file 5 6
unfolding is_dir file_type
file_system-Opens = record {
  found = refl;
  not_directory = refl;
  opened = refl;
  told = refl;
  is_passive = refl;
  accepted = refl;
}

ftp_cmd_retr-written_example :
    let r = ftp_cmd_retr file_system 3 (codes "/x") (record { env = env (codes "/"); log = [] }) in
    HasReturned r.0 × (written (pos 6) r.1.log ≡ codes "abc")
unfolding written joined same ftp_abspath
ftp_cmd_retr-written_example =
    ftp_cmd_retr-written file_system 3 b'/' (codes "x") (codes "/x") (env (codes "/")) [] a_file 5 6
      (codes "ab" ∷ codes "c" ∷ []) refl file_system-Opens refl
      (delivers refl refl (delivers refl refl (ends refl))) (omega arith)

-- A system that accepts a connection and takes a file of two chunks from it.
abbrev upload_system : Kernel
upload_system =
    system (in_turn ([] ∷ [] ∷ [] ∷ [] ∷ codes "ab" ∷ [] ∷ codes "c" ∷ [] ∷ [] ∷ [])) accepts

upload_system-Accepts : Accepts upload_system (env (codes "/")) (codes "/x") [] 5 6
upload_system-Accepts = record {
  opened = refl;
  moved = refl;
  told = refl;
  is_passive = refl;
  accepted = refl;
}

ftp_cmd_stor-written_example :
    let r =
      ftp_cmd_stor upload_system 3 (codes "/x") (record { env = env (codes "/"); log = [] }) in
    HasReturned r.0
    × (written (pos 5) r.1.log ≡ codes "abc")
    × (last_cut (pos 5) r.1.log ≡ some (pos 12))
unfolding written joined same ftp_abspath
ftp_cmd_stor-written_example =
    ftp_cmd_stor-written upload_system 3 b'/' (codes "x") (codes "/x") (env (codes "/")) [] 9 5 6
      (codes "ab" ∷ codes "c" ∷ []) refl refl upload_system-Accepts refl
      (Receives.receives refl refl (omega arith)
        (Receives.receives refl refl (omega arith) (Receives.ends refl)))
      (omega arith) (omega arith)

-- ===== src/Klog/Disk.antt =====
-- plugin_server/source/klog.c: `klog_to_disk_thread`.
use ps4_hen_plugins.Base.{
  ℕ, Bool, true, false, Option, none, some, List, [], ◌∷◌, ◌++◌, ◌==◌, if◌then◌else◌, Bytes, take,
}

-- What the calls of a turn give: whether the two files that ask for something are there, the stream
-- that `fopen` opens, the descriptor that `open` gives, and what `read` gives: bytes, or whether its
-- error is only that there are none.
pub data Reading : Type 0 where
  some_bytes : Bytes → Reading
  nothing : Reading
  try_again : Reading
  read_failed : Reading

pub record Turn : Type 0 where
  pub disk_check : Bool
  pub disk_check_stop : Bool
  pub fopen : Option ℕ
  pub open_klog : Option ℕ
  pub reading : Reading

-- The stream and the descriptor that the thread holds, and the calls so far: what was opened, what
-- was closed, and what was written to which stream.
pub record Logger : Type 0 where
  pub output_file : Option ℕ
  pub klog_fd : Option ℕ
  pub opened : List ℕ
  pub closed : List ℕ
  pub written : List (ℕ × Bytes)

pub data Step : Type 0 where
  next_turn : Logger → Step
  stopped : Logger → Step

abbrev pub held : Option ℕ → List ℕ
held none = []
held (some fd) = fd ∷ []

-- `DISK_CHECK`: the file is closed, so that a new one is started.
unfoldable pub close_file : Bool → Logger → Logger
close_file false l = l
close_file true l = record l { output_file = none; closed = l.closed ++ held l.output_file }

-- `fprintf(output_file, "%s", buffer)`: the bytes up to a NUL.
unfoldable pub text_of : Bytes → Bytes
text_of [] = []
text_of (c ∷ cs) = let rest = text_of cs in if c == 0 then [] else c ∷ rest

unfoldable pub read_klog : ℕ → ℕ → Reading → Logger → Logger
unfolding text_of
read_klog file fd (some_bytes bytes) l = record l {
  written = l.written ++ (file, text_of (take 2047 bytes)) ∷ [];
}
read_klog file fd nothing l = l
read_klog file fd try_again l = l
read_klog file fd read_failed l = record l { klog_fd = none; closed = l.closed ++ fd ∷ [] }

unfoldable pub with_klog : Turn → ℕ → Option ℕ → Logger → Logger
unfolding read_klog
with_klog t file (some fd) l = read_klog file fd t.reading l
with_klog t file none l = elim t.open_klog [
  | none ↦ l
  | some fd ↦
      read_klog file fd t.reading (record l { klog_fd = some fd; opened = l.opened ++ fd ∷ [] })
]

unfoldable pub with_file : Turn → Option ℕ → Logger → Logger
unfolding with_klog
with_file t (some file) l = with_klog t file l.klog_fd l
with_file t none l = elim t.fopen [
  | none ↦ l
  | some file ↦
      with_klog t file l.klog_fd
        (record l { output_file = some file; opened = l.opened ++ file ∷ [] })
]

-- Behind the loop.
unfoldable pub close_held : Logger → Logger
close_held l = record l {
  output_file = none;
  klog_fd = none;
  closed = (l.closed ++ held l.output_file) ++ held l.klog_fd;
}

-- A turn of the loop.
unfoldable pub log_turn : Turn → Logger → Step
unfolding close_file with_file close_held
log_turn t l =
    let checked = close_file t.disk_check l in
    if t.disk_check_stop
    then stopped (close_held checked)
    else next_turn (with_file t checked.output_file checked)

unfoldable pub log_next : (Logger → Step) → Step → Step
log_next more (next_turn l) = more l
log_next more (stopped l) = stopped l

abbrev pub idle : Logger
idle = record { output_file = none; klog_fd = none; opened = []; closed = []; written = [] }

unfoldable pub klog_to_disk_thread : List Turn → Logger → Step
unfolding log_turn log_next
klog_to_disk_thread [] l = next_turn l
klog_to_disk_thread (t ∷ ts) l = log_next (klog_to_disk_thread ts) (log_turn t l)

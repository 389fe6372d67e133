-- ===== src/Ftp.antt =====
-- plugin_server/source/ftp/cmd.h: the state of a client, and what the commands ask of the system.
pub mod Format
pub mod Keeps
mod Tests
pub mod Replies
pub mod Paths
pub mod Connection
pub mod Transfer
pub mod Store
pub mod Session
pub mod Digits
pub mod Ports
pub mod Sending
pub mod Receiving
pub mod Download
pub mod Upload
pub mod Lines
pub mod Directories
pub mod Renames
pub mod Server
pub mod Fate
pub mod Sockets
pub mod Accounted
use ps4_hen_plugins.Base.{
  ℕ, zero, suc, ◌+◌, ◌-◌, ◌*◌, ◌/◌, ◌%◌, ◌^◌, ◌≤◌, ◌<◌, min, Bool, true, false, not, ◌&&◌, ◌||◌,
  Option, none, some, List, [], ◌∷◌, ◌++◌, ◌≡◌, refl, sym, ap, ◌∙◌, ◌⊎◌, ◌≢◌, ◌↔◌, inl, inr, arith,
  leb, ltb, ◌==◌, if◌then◌else◌, Bytes, length, take, drop, get_or, strchr, All, Lacks, matches,
  matches_iff, matches_refl, codes, Bool-cases, Option-cases, append-nil, append_assoc, rev_onto,
  length-append, length-take, take_all, take-append, ℤ, pos, negsuc, is_negative, is_positive,
  is_zero, to_size, to_off, get_or-last, some_inj, none-ne-some, get_or-append, get_or-append_right,
  strchr-append, strchr-Lacks, Lacks-append,
}

-- `struct sockaddr_in`, in the byte order of the machine.
pub record SockAddr : Type 0 where
  pub s_addr : ℕ
  pub sin_port : ℕ

-- `ftp_env_t`. A path is what stands in its array up to the NUL.
pub record Env : Type 0 where
  pub data_fd : ℤ
  pub active_fd : ℤ
  pub passive_fd : ℤ
  pub cwd : Bytes
  pub type : ℕ
  pub data_offset : ℤ
  pub rename_path : Bytes
  pub data_addr : SockAddr

-- The calls of the system that the server makes, with their arguments.
pub data Call : Type 0 where
  getsockname : ℤ → Call
  socket : Call
  bind : ℤ → Call
  listen : ℤ → Call
  connect : ℤ → SockAddr → Call
  accept : ℤ → Call
  close : ℤ → Call
  stat : Bytes → Call
  chmod : Bytes → ℤ → Call
  remove : Bytes → Call
  mkdir : Bytes → Call
  rmdir : Bytes → Call
  rename : Bytes → Bytes → Call
  opendir : Bytes → Call
  readdir : Call
  closedir : Call
  open_read : Bytes → Call
  open_write : Bytes → Call
  lseek : ℤ → ℤ → Call
  ftruncate : ℤ → ℤ → Call
  read : ℤ → ℕ → Call
  recv : ℤ → ℕ → Call
  write : ℤ → Bytes → ℕ → Call
  alloc : ℕ → Call
  exit : Call

-- The calls made so far, the last one first.
abbrev pub Log : Type 0
Log = List Call

pub record Stat : Type 0 where
  pub st_mode : ℕ
  pub st_size : ℕ

-- The system, which is not part of the program: it answers each call by what was called before.
pub record Kernel : Type 0 where
  -- whether the call returns 0
  pub succeeds : Log → Call → Bool
  -- the descriptor or the offset that the call returns
  pub returns_int : Log → Call → ℤ
  -- `none` where the call returns -1; no bytes at the end of the file or of the connection
  pub returns_bytes : Log → Call → Option Bytes
  pub stats : Log → Bytes → Option Stat
  -- the address and the port of a socket
  pub names : Log → ℤ → Option (ℕ × ℕ)
  -- the name of the next entry of the directory that is open
  pub entries : Log → Option Bytes
  -- `strerror_r(errno)`
  pub error_text : Log → Option Bytes
  -- `strftime` of the time, and the size, at their offsets in a `struct stat`
  pub list_time : Stat → Bytes
  pub list_size : Stat → ℕ
  -- `errno == EINTR`
  pub interrupted : Log → Bool
  -- what stands in the cells that `realloc` adds
  pub fresh_cells : ℕ → Bytes
  pub path_max : ℕ
  pub page_size : ℕ
  -- the first line of the greeting, with the process and the time of compilation
  pub banner : Bytes

pub record State : Type 0 where
  pub env : Env
  pub log : Log

-- What a call of a function comes to: it returns, the process has exited, or the loop's fuel ended.
pub data Outcome {ℓ} (A : Type ℓ) : Type ℓ where
  returned : A → Outcome A
  exited : Outcome A
  starved : Outcome A

abbrev pub M : Type 0 → Type 0
M A = State → Outcome A × State

module _ {A : Type 0} where
  unfoldable pub pure : A → M A
  pure a s = (returned a, s)

  unfoldable pub starve : M A
  starve s = (starved, s)

  -- Make a call, whose answer depends on the calls before it.
  unfoldable pub ask : Call → (Log → A) → M A
  ask c answer s = (returned (answer s.log), record s { log = c ∷ s.log })

  unfoldable pub gets : (Env → A) → M A
  gets f s = (returned (f s.env), s)

  -- What the calls so far let the program see without a call, such as `errno`.
  unfoldable pub observe : (Log → A) → M A
  observe f s = (returned (f s.log), s)

-- Update the state of the client, or end the process.
unfoldable pub modify : (Env → Env) → M (Unit {0})
modify f s = (returned tt, record s { env = f s.env })

unfoldable pub quit : M ℤ
quit s = (exited, record s { log = exit ∷ s.log })

module _ {A B : Type 0} where
  abbrev pub after : Outcome A × State → (A → M B) → Outcome B × State
  after (returned a, s) f = f a s
  after (exited, s) f = (exited, s)
  after (starved, s) f = (starved, s)

  infixl 5 ◌>>=◌ ◌>>◌
  -- Opening this opens the actions too.
  unfoldable pub ◌>>=◌ : M A → (A → M B) → M B
  unfolding pure starve ask gets observe modify quit
  ◌>>=◌ m f s = after (m s) f

  abbrev pub ◌>>◌ : M A → M B → M B
  m >> n = m >>= λ _. n

  -- `if (x)`, for a result that may be missing.
  unfoldable pub on_some : Option A → M B → (A → M B) → M B
  on_some none n f = n
  on_some (some a) n f = f a

-- The results of the handlers: 0, and -1 on which the connection ends.
abbrev pub success : ℤ
success = pos 0

abbrev pub failure : ℤ
failure = negsuc 0

module _ (k : Kernel) where
  -- A call that returns 0 on success: whether it failed.
  abbrev pub fails : Call → M Bool
  fails c = ask c (λ log. not (k.succeeds log c))

  abbrev pub int : Call → M ℤ
  int c = ask c (λ log. k.returns_int log c)

  abbrev pub bytes : Call → M (Option Bytes)
  bytes c = ask c (λ log. k.returns_bytes log c)

  abbrev pub stat_of : Bytes → M (Option Stat)
  stat_of path = ask (stat path) (λ log. k.stats log path)

-- ===== src/Klog/Files.antt =====
-- plugin_server/source/klog.c: the thread that writes the log to disk loses no file.
use ps4_hen_plugins.Base.{
  times, times-append, ℕ, ◌+◌, Bool, true, false, Option, none, some, List, [], ◌∷◌, ◌++◌, ◌≡◌,
  refl, ap, arith, inl, inr, Bool-cases, Option-cases,
}
use ps4_hen_plugins.Klog.Disk.{
  Reading, some_bytes, nothing, try_again, read_failed, Turn, Logger, Step, next_turn, stopped,
  held, close_file, read_klog, with_klog, with_file, close_held, log_turn, log_next, idle,
  klog_to_disk_thread,
}

-- Each file that was opened is closed, or held.
pub record IsHeld (l : Logger) : Type 0 where
  pub balanced :
      (fd : ℕ)
      → times fd l.opened
        ≡ times fd l.closed + (times fd (held l.output_file) + times fd (held l.klog_fd))

close_file-IsHeld : (b : Bool) (l : Logger) → IsHeld l → IsHeld (close_file b l)
unfolding close_file
close_file-IsHeld false l h = h
close_file-IsHeld true l h = record {
  balanced = λ fd. omega (arith, h.balanced fd, times-append fd l.closed (held l.output_file));
}

read_klog-IsHeld :
    (file k : ℕ) (r : Reading) (l : Logger)
    → l.klog_fd ≡ some k
    → IsHeld l
    → IsHeld (read_klog file k r l)
unfolding read_klog
read_klog-IsHeld file k (some_bytes bytes) l e h = record { balanced = h.balanced }
read_klog-IsHeld file k nothing l e h = h
read_klog-IsHeld file k try_again l e h = h
read_klog-IsHeld file k read_failed l e h = record {
  balanced = λ fd.
      omega
        (arith, h.balanced fd, ap (λ o. times fd (held o)) e, times-append fd l.closed (k ∷ []));
}

with_klog-IsHeld :
    (t : Turn) (file : ℕ) (o : Option ℕ) (l : Logger)
    → l.klog_fd ≡ o
    → IsHeld l
    → IsHeld (with_klog t file o l)
unfolding with_klog
with_klog-IsHeld t file (some k) l e h = read_klog-IsHeld file k t.reading l e h
with_klog-IsHeld t file none l e h = elim (Option-cases t.open_klog) [
  | inl n ↦ rw (n, with_klog) h
  | inr (k, n) ↦
      rw (n, with_klog)
        (read_klog-IsHeld file k t.reading
          (record l { klog_fd = some k; opened = l.opened ++ k ∷ [] }) refl
          (record {
            balanced = λ fd. omega (
              arith,
              h.balanced fd,
              ap (λ o. times fd (held o)) e,
              times-append fd l.opened (k ∷ []),
            );
          }))
]

with_file-IsHeld :
    (t : Turn) (o : Option ℕ) (l : Logger) → l.output_file ≡ o → IsHeld l → IsHeld (with_file t o l)
unfolding with_file
with_file-IsHeld t (some file) l e h = with_klog-IsHeld t file l.klog_fd l refl h
with_file-IsHeld t none l e h = elim (Option-cases t.fopen) [
  | inl n ↦ rw (n, with_file) h
  | inr (file, n) ↦
      rw (n, with_file)
        (with_klog-IsHeld t file l.klog_fd
          (record l { output_file = some file; opened = l.opened ++ file ∷ [] }) refl
          (record {
            balanced = λ fd. omega (
              arith,
              h.balanced fd,
              ap (λ o. times fd (held o)) e,
              times-append fd l.opened (file ∷ []),
            );
          }))
]

-- While it runs, each file is closed or held; once it has stopped, each is closed as often as opened.
pub data IsTidy : Step → Type 0 where
  runs : {l : Logger} → IsHeld l → IsTidy (next_turn l)
  ends : {l : Logger} → ((fd : ℕ) → times fd l.opened ≡ times fd l.closed) → IsTidy (stopped l)

close_held-tidy :
    (l : Logger) (fd : ℕ)
    → IsHeld l
    → times fd (close_held l).opened ≡ times fd (close_held l).closed
unfolding close_held
close_held-tidy l fd h = omega (
  arith,
  h.balanced fd,
  times-append fd l.closed (held l.output_file),
  times-append fd (l.closed ++ held l.output_file) (held l.klog_fd),
)

log_turn-IsTidy : (t : Turn) (l : Logger) → IsHeld l → IsTidy (log_turn t l)
unfolding log_turn
log_turn-IsTidy t l h =
    let checked = close_file t.disk_check l in
    let c = close_file-IsHeld t.disk_check l h in
    elim (Bool-cases t.disk_check_stop) [
      | inl e ↦ rw (e, log_turn) (IsTidy.ends (λ fd. close_held-tidy checked fd c))
      | inr e ↦
          rw (e, log_turn) (IsTidy.runs (with_file-IsHeld t checked.output_file checked refl c))
    ]

log_next-IsTidy :
    (more : Logger → Step) (s : Step)
    → ((l : Logger) → IsHeld l → IsTidy (more l))
    → IsTidy s
    → IsTidy (log_next more s)
unfolding log_next
log_next-IsTidy more (next_turn l) tidy (IsTidy.runs h) = tidy l h
log_next-IsTidy more (stopped l) tidy (IsTidy.ends h) = IsTidy.ends h

tidied : (ts : List Turn) (l : Logger) → IsHeld l → IsTidy (klog_to_disk_thread ts l)
unfolding klog_to_disk_thread
tidied [] l h = IsTidy.runs h
tidied (t ∷ ts) l h =
    log_next-IsTidy (klog_to_disk_thread ts) (log_turn t l) (tidied ts) (log_turn-IsTidy t l h)

-- Through any turns of the thread each file and device that it opened is closed, or is one of the two
-- that it holds; once it has stopped, each was closed as often as it was opened.
pub klog_to_disk_thread-IsTidy : (turns : List Turn) → IsTidy (klog_to_disk_thread turns idle)
klog_to_disk_thread-IsTidy turns = tidied turns idle (record { balanced = λ fd. refl })

-- ===== src/Ftp/Accounted.antt =====
-- plugin_server/source/ftp/ftp.c: the sockets, the threads and the notices of the whole server.
use mathlib.Core.Path.{subst}
use ps4_hen_plugins.Base.{
  ℕ, ◌+◌, Bool, true, false, not, ◌||◌, Option, none, some, List, [], ◌∷◌, ◌++◌, append-nil, ◌≡◌,
  refl, sym, ◌∙◌, ap, inl, inr, arith, if◌then◌else◌, ℤ, Bool-cases, times, All, pos, ◌<◌,
}
use ps4_hen_plugins.Ftp.{Outcome, returned, exited, starved}
use ps4_hen_plugins.Ftp.Session.{ftp_thread}
use ps4_hen_plugins.Ftp.Keeps.Directory.{IsAbsolute}
use ps4_hen_plugins.Ftp.Keeps.Session.{ftp_thread-IsAbsolute}
use ps4_hen_plugins.Ftp.Server.{
  Ifaddrs, Client, Attempt, Server, is_announced, announce, close_srvfd, listen_on, serve_ifaddrs,
  ftp_serve, main_next, main_loop, ftp_main,
}
use ps4_hen_plugins.Ftp.Fate.{fate, ends, shown, found, first_shown}
use ps4_hen_plugins.Ftp.Sockets.{accept_loop-IsLeft, main_loop-Leaves}

announce-told :
    (notify_user : Bool) (ifas : List Ifaddrs)
    → (announce notify_user ifas).0 ≡ (if notify_user then shown ifas else [])
unfolding announce shown
announce-told true [] = refl
announce-told false [] = refl
announce-told true (ifa ∷ ifas) = elim (Bool-cases (is_announced ifa)) [
  | inl e ↦ rw e (ap (◌∷◌ ifa) (announce-told true ifas))
  | inr e ↦ rw e (announce-told true ifas)
]
announce-told false (ifa ∷ ifas) = elim (Bool-cases (is_announced ifa)) [
  | inl e ↦ rw e (announce-told false ifas)
  | inr e ↦ rw e (announce-told false ifas)
]

close_srvfd-announced :
    (closes : Bool) (srvfd : ℕ) (result : Bool × Server)
    → (close_srvfd closes srvfd result).1.announced ≡ result.1.announced
unfolding close_srvfd
close_srvfd-announced closes srvfd (true, s) = refl
close_srvfd-announced closes srvfd (false, s) = refl

listen_on-announced :
    (a : Attempt) (o : Option ℕ) (s : Server) → (listen_on a o s).1.announced ≡ s.announced
unfolding listen_on
listen_on-announced a none s = refl
listen_on-announced a (some srvfd) s =
    elim (Bool-cases (not a.setsockopt || (not a.bind || not a.listen))) [
      | inl e ↦ rw e refl
      | inr e ↦ rw e (
          close_srvfd-announced a.closes srvfd _
          ∙ (accept_loop-IsLeft a.clients (record s { opened = s.opened ++ srvfd ∷ [] })).announced)
    ]

serve_ifaddrs-announced :
    (a : Attempt) (notify_user : Bool) (o : Option (List Ifaddrs)) (s : Server)
    → (serve_ifaddrs a notify_user o s).1.announced
      ≡ s.announced ++ (if notify_user then found o else [])
unfolding serve_ifaddrs found
serve_ifaddrs-announced a true none s = sym (append-nil s.announced)
serve_ifaddrs-announced a false none s = sym (append-nil s.announced)
serve_ifaddrs-announced a notify_user (some ifas) s =
    let (told, wait) = announce notify_user ifas in
    let same = ap (λ x. s.announced ++ x) (announce-told notify_user ifas) in
    elim (Bool-cases (announce notify_user ifas).1) [
      | inl e ↦ rw e same
      | inr e ↦ rw e (listen_on-announced a a.socket _ ∙ same)
    ]

main_next-announced :
    (again : Server → Outcome ℤ × Server) (result : Outcome ℤ × Server)
    → ((t : Server) → (again t).1.announced ≡ t.announced)
    → (main_next again result).1.announced ≡ result.1.announced
unfolding main_next
main_next-announced again (returned x, t) h = h t
main_next-announced again (exited, t) h = refl
main_next-announced again (starved, t) h = refl

main_loop-silent :
    (attempts : List Attempt) (s : Server) → (main_loop false attempts s).1.announced ≡ s.announced
unfolding main_loop ftp_serve
main_loop-silent [] s = refl
main_loop-silent (a ∷ attempts) s =
    main_next-announced (main_loop false attempts) _ (main_loop-silent attempts)
    ∙ serve_ifaddrs-announced a false a.getifaddrs s
    ∙ append-nil s.announced

ftp_main-announced :
    (attempts : List Attempt) → (ftp_main attempts).1.announced ≡ first_shown attempts
unfolding ftp_main main_loop ftp_serve first_shown
ftp_main-announced [] = refl
ftp_main-announced (a ∷ attempts) =
    main_next-announced (main_loop false attempts) _ (main_loop-silent attempts)
    ∙ serve_ifaddrs-announced a true a.getifaddrs _

-- What the server has done: the sockets that were opened are closed or left open by an attempt, the
-- threads are those of the accepted connections, and the user was told what the first attempt found.
pub record IsAccounted (attempts : List Attempt) (s : Server) : Type 0 where
  pub balanced : (fd : ℕ) → times fd s.opened ≡ times fd s.closed + times fd (fate attempts).lost
  pub started : s.threads ≡ ends (fate attempts).connected
  pub told : s.announced ≡ first_shown attempts

pub ftp_main-IsAccounted : (attempts : List Attempt) → IsAccounted attempts (ftp_main attempts).1
unfolding ftp_main
ftp_main-IsAccounted attempts =
    let h =
      main_loop-Leaves true attempts
        (record { announced = []; opened = []; closed = []; threads = [] }) in
    record {
      balanced = λ fd. omega (arith, h.opens fd);
      started = h.starts;
      told = ftp_main-announced attempts;
    }

ends-IsAbsolute :
    (path_max : ℕ) (cs : List Client)
    → 1 < path_max
    → All (λ c. c.system.path_max ≡ path_max) cs
    → All (λ t. IsAbsolute path_max t.env) (ends cs)
ends-IsAbsolute path_max [] room h = tt
ends-IsAbsolute path_max (c ∷ cs) room (e, h) =
    let room_there : 1 < c.system.path_max = omega arith in
    (
      subst (λ n. IsAbsolute n (ftp_thread c.system c.fuel (pos c.connfd) []).1.env) e
          (ftp_thread-IsAbsolute c.system room_there c.fuel (pos c.connfd) []),
      ends-IsAbsolute path_max cs room h,
    )

-- Where `PATH_MAX` is more than 1, and the same for all connections, every thread that `ftp_main`
-- creates ends with an absolute path that fits its array as the working directory, whatever its
-- client sends, however the system answers and whichever attempts to serve fail.
pub ftp_main-IsAbsolute :
    (path_max : ℕ) (attempts : List Attempt)
    → 1 < path_max
    → All (λ c. c.system.path_max ≡ path_max) (fate attempts).connected
    → All (λ t. IsAbsolute path_max t.env) (ftp_main attempts).1.threads
ftp_main-IsAbsolute path_max attempts room h =
    subst (All (λ t. IsAbsolute path_max t.env)) (sym (ftp_main-IsAccounted attempts).started)
      (ends-IsAbsolute path_max (fate attempts).connected room h)

-- ===== src/Pkg/Install.antt =====
-- plugin_mono/source/pkg_broswer.c: the installer, and the entry points.
use ps4_hen_plugins.Base.{
  ℕ, Bool, true, false, Option, none, some, List, [], ◌∷◌, ◌≡◌, ◌≢◌, ◌↔◌, refl, inl, inr, arith,
  ◌==◌, if◌then◌else◌, Bytes, codes, ℤ, pos, negsuc, is_zero, Bool-cases,
}
use ps4_hen_plugins.Pkg.Scan.{directory, regular, special, Stat}

-- `cached` and `tried` of `resolve_installer`.
pub record Resolver : Type 0 where
  pub cached : ℕ
  pub tried : Bool

-- A look-up of a symbol: the handle.
abbrev pub first_handle : ℕ
first_handle = 0x2001

abbrev pub second_handle : ℕ
second_handle = 2

abbrev pub install_symbol : Bytes
install_symbol = codes "sceAppInstUtilAppInstallPkg"

-- The texts of `Notify`.
pub data Notice : Type 0 where
  not_found : Bytes → Notice
  cannot_resolve : Notice
  installing : Bytes → Notice
  install_failed : ℤ → Bytes → Notice

pub record Outcome : Type 0 where
  pub result : ℤ
  pub resolver : Resolver
  pub notices : List Notice
  -- The calls of the installer: its address, and the path.
  pub installs : List (ℕ × Bytes)

-- `stat(...) == 0 && S_ISREG(...)`
unfoldable pub is_regular : (Bytes → Option Stat) → Bytes → Bool
is_regular stat path = elim (stat path) [
  | none ↦ false
  | some st ↦ elim st.kind [ directory ↦ false | regular ↦ true | special ↦ false ]
]

-- `sceKernelDlsym`, which gives its result and the address that it stores.
module _ (dlsym : ℕ → Bytes → ℤ × ℕ) where
  unfoldable pub look_up : ℕ → ℕ
  look_up handle =
      let (result, sym_addr) = dlsym handle install_symbol in if is_zero result then sym_addr else 0

  -- `resolve_installer`, with the handles that are looked at.
  unfoldable pub resolve_installer : Resolver → ℕ × (Resolver × List ℕ)
  unfolding look_up
  resolve_installer r =
      let first = look_up first_handle in
      let second = look_up second_handle in
      if r.tried
      then (r.cached, (r, []))
      else if first == 0
      then (second, (record { cached = second; tried = true }, first_handle ∷ second_handle ∷ []))
      else (first, (record { cached = first; tried = true }, first_handle ∷ []))

  resolve_tried : (r : Resolver) → r.tried ≡ true → resolve_installer r ≡ (r.cached, (r, []))
  unfolding resolve_installer
  resolve_tried r h = rw h refl

  -- The address that `resolve_installer` gives is kept: a second call gives it again, without looking
  -- anything up.
  pub resolve_installer_again :
      (r : Resolver)
      → resolve_installer (resolve_installer r).1.0
        ≡ ((resolve_installer r).0, ((resolve_installer r).1.0, []))
  resolve_installer_again r = elim (Bool-cases r.tried) [
    | inl e ↦ rw (resolve_tried r e, resolve_tried r e) refl
    | inr e ↦ elim (Bool-cases (look_up first_handle == 0)) [
      | inl f ↦ unfold resolve_installer in rw (e, f) refl
      | inr f ↦ unfold resolve_installer in rw (e, f) refl
    ]
  ]

  -- A call of the installer, at its address.
  module _ (stat : Bytes → Option Stat) (install_pkg : ℕ → Bytes → ℤ) where
    unfoldable pub installed : Bytes → ℕ → Resolver → Outcome
    installed path fn r =
        let rc = install_pkg fn path in
        record {
          result = rc;
          resolver = r;
          notices = (if is_zero rc then installing path else install_failed rc path) ∷ [];
          installs = (fn, path) ∷ [];
        }

    unfoldable pub install_found : Bytes → Resolver → Outcome
    unfolding resolve_installer installed
    install_found path r =
        let (fn, (next, handles)) = resolve_installer r in
        if fn == 0
        then record {
          result = negsuc 2;
          resolver = next;
          notices = cannot_resolve ∷ [];
          installs = [];
        }
        else installed path fn next

    -- `PkgBrowser_InstallByPath`
    unfoldable pub install_by_path : Bytes → Resolver → Outcome
    unfolding install_found is_regular
    install_by_path [] r = record { result = negsuc 0; resolver = r; notices = []; installs = [] }
    install_by_path (c ∷ path) r =
        if is_regular stat (c ∷ path) then install_found (c ∷ path) r else record {
          result = negsuc 1;
          resolver = r;
          notices = not_found (c ∷ path) ∷ [];
          installs = [];
        }

    succeeds :
        (path : Bytes) (fn : ℕ) (r : Resolver)
        → ((installed path fn r).result ≡ pos 0) ↔ (install_pkg fn path ≡ pos 0)
    unfolding installed
    succeeds path fn r = (λ e. e, λ e. e)

    install_found-result :
        (path : Bytes) (r : Resolver)
        → ((install_found path r).result ≡ pos 0)
          ↔ (((resolve_installer r).0 ≢ 0) × (install_pkg (resolve_installer r).0 path ≡ pos 0))
    unfolding install_found
    install_found-result path r = elim (Bool-cases ((resolve_installer r).0 == 0)) [
      | inl e ↦ rw e (λ h. absurd (ground arith), λ h. absurd (h.0 (ground arith)))
      | inr e ↦ rw e (λ h. (λ z. absurd (ground arith), h), λ h. h.1)
    ]

    -- An installation succeeds exactly when the path is one of a regular file, the installer is
    -- found, and the installer returns 0 for that path.
    pub install_by_path-result :
        (path : Bytes) (r : Resolver)
        → ((install_by_path path r).result ≡ pos 0) ↔ (
            (path ≢ [])
            × ((is_regular stat path ≡ true)
                × (((resolve_installer r).0 ≢ 0)
                    × (install_pkg (resolve_installer r).0 path ≡ pos 0))))
    unfolding install_by_path
    install_by_path-result [] r = (λ h. absurd (ground arith), λ h. absurd (h.0 refl))
    install_by_path-result (c ∷ path) r = elim (Bool-cases (is_regular stat (c ∷ path))) [
      | inl e ↦ rw e (
        λ h. (λ z. cc, (refl, (install_found-result (c ∷ path) r).0 h)),
        λ h. (install_found-result (c ∷ path) r).1 h.1.1,
      )
      | inr e ↦ rw e (λ h. absurd (ground arith), λ h. absurd (ground arith))
    ]

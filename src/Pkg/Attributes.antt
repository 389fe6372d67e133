-- ===== src/Pkg/Attributes.antt =====
-- plugin_mono/source/pkg_broswer.c: a reader of the page finds the attributes of a button.
use ps4_hen_plugins.Base.{
  ℕ, zero, suc, ◌+◌, ◌/◌, ◌%◌, none, some, List, [], ◌∷◌, arith, ◌==◌, Bytes, strchr, Lacks,
  Bool-cases, inl, inr,
}
use ps4_hen_plugins.Ftp.Format.{decimal, decimal_digits}
use ps4_hen_plugins.Pkg.Page.{quote}

-- A reader of XML: the values of the first attributes, which stand between quotes.
unfoldable pub attributes : ℕ → Bytes → List Bytes
attributes zero s = []
attributes (suc n) s = elim (strchr quote s) [
  | none ↦ []
  | some (_, value) ↦ elim (strchr quote value) [
    | none ↦ []
    | some (v, rest) ↦ v ∷ attributes n rest
  ]
]

decimal_digits-Lacks :
    (fuel n : ℕ) (acc : Bytes) → Lacks quote acc → Lacks quote (decimal_digits fuel n acc)
unfolding decimal_digits
decimal_digits-Lacks zero n acc h = h
decimal_digits-Lacks (suc fuel) n acc h =
    let digit : Lacks quote ((n % 10 + b'0') ∷ acc) = (omega arith, h) in
    elim (Bool-cases (n / 10 == 0)) [
      | inl e ↦ rw e digit
      | inr e ↦ rw e (decimal_digits-Lacks fuel (n / 10) ((n % 10 + b'0') ∷ acc) digit)
    ]

pub decimal-Lacks : (n : ℕ) → Lacks quote (decimal n)
unfolding decimal
decimal-Lacks n = decimal_digits-Lacks 20 n [] tt

-- The text of a number lacks quotes.
pub record IsPlain (format_float : ℕ → ℕ → ℕ → Bytes) : Type 0 where
  pub plain : (digits bytes unit : ℕ) → Lacks quote (format_float digits bytes unit)

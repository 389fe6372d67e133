-- ===== src/Pkg/Escape.antt =====
-- plugin_mono/source/pkg_broswer.c: `xml_escape`, and a reader of the references that it writes.
use ps4_hen_plugins.Base.{
  ℕ, ◌+◌, ◌≤◌, ◌<◌, Option, none, some, [], ◌∷◌, ◌++◌, inl, inr, arith, ltb, ◌==◌, if◌then◌else◌,
  Bytes, length, Bool-cases, codes, matches, rev_onto, Lacks, Lacks-append, length-append,
}

-- The `switch` of the loop.
unfoldable pub escaped : ℕ → Bytes
escaped c =
    if c == b'&'
    then codes "&amp;"
    else if c == b'<'
    then codes "&lt;"
    else if c == b'>'
    then codes "&gt;"
    else if c == b'"'
    then codes "&quot;"
    else if c == 39
    then codes "&apos;"
    else c ∷ []

-- The loop, with the number `o` of bytes that are written.
unfoldable pub escape_from : ℕ → ℕ → Bytes → Bytes
unfolding escaped
escape_from out_sz o [] = []
escape_from out_sz o (c ∷ p) =
    let rest = escape_from out_sz (o + length (escaped c)) p in
    if ltb (o + 6) out_sz then escaped c ++ rest else []

-- `xml_escape`
unfoldable pub xml_escape : Bytes → ℕ → Bytes
unfolding escape_from
xml_escape s out_sz = if out_sz == 0 then [] else escape_from out_sz 0 s

-- What a reader of XML makes of the name of a reference.
unfoldable pub entity : Bytes → Bytes
unfolding matches
entity name =
    if matches name (codes "amp")
    then b'&' ∷ []
    else if matches name (codes "lt")
    then b'<' ∷ []
    else if matches name (codes "gt")
    then b'>' ∷ []
    else if matches name (codes "quot")
    then b'"' ∷ []
    else if matches name (codes "apos")
    then 39 ∷ []
    else []

-- A reader of XML text, outside of a reference, or behind the `&` and the bytes, in reverse, of one:
-- what it gives at a byte, and where it is then.
unfoldable pub read_step : Option Bytes → ℕ → Bytes × Option Bytes
unfolding entity
read_step none c = if c == b'&' then ([], some []) else (c ∷ [], none)
read_step (some name) c =
    if c == b';' then (entity (rev_onto name []), none) else ([], some (c ∷ name))

unfoldable pub unescape : Option Bytes → Bytes → Bytes
unfolding read_step
unescape state [] = []
unescape state (c ∷ s) = let (out, next) = read_step state c in out ++ unescape next s

length-escaped : (c : ℕ) → (1 ≤ length (escaped c)) × (length (escaped c) ≤ 6)
unfolding escaped
length-escaped c = ground arith

escape_from-bound :
    (out_sz o : ℕ) (s : Bytes) → o < out_sz → o + length (escape_from out_sz o s) < out_sz
unfolding escape_from
escape_from-bound out_sz o [] h = omega arith
escape_from-bound out_sz o (c ∷ p) h = elim (Bool-cases (ltb (o + 6) out_sz)) [
  | inl e ↦ rw e (
      omega (
        arith,
        length-append (escaped c) (escape_from out_sz (o + length (escaped c)) p),
        escape_from-bound out_sz (o + length (escaped c)) p (ground (arith, length-escaped c)),
      ))
  | inr e ↦ rw e (omega arith)
]

-- What is written, with the NUL behind it, fits in the buffer, whatever the text.
pub length-xml_escape :
    (s : Bytes) (out_sz : ℕ) → 0 < out_sz → length (xml_escape s out_sz) < out_sz
unfolding xml_escape
length-xml_escape s out_sz h = ground (arith, escape_from-bound out_sz 0 s h)

Lacks-escaped : (c : ℕ) → Lacks b'"' (escaped c) × (Lacks b'<' (escaped c) × Lacks b'>' (escaped c))
unfolding escaped
Lacks-escaped c = elim (Bool-cases (c == b'&')) [
  | inl e ↦ rw e (ground arith)
  | inr e ↦ elim (Bool-cases (c == b'<')) [
    | inl e2 ↦ rw (e, e2) (ground arith)
    | inr e2 ↦ elim (Bool-cases (c == b'>')) [
      | inl e3 ↦ rw (e, e2, e3) (ground arith)
      | inr e3 ↦ elim (Bool-cases (c == b'"')) [
        | inl e4 ↦ rw (e, e2, e3, e4) (ground arith)
        | inr e4 ↦ elim (Bool-cases (c == 39)) [
          | inl e5 ↦ rw (e, e2, e3, e4, e5) (ground arith)
          | inr e5 ↦ rw (e, e2, e3, e4, e5) (ground arith)
        ]
      ]
    ]
  ]
]

-- No quote and no angle bracket is in what is written, so that it does not end an attribute.
pub Lacks-escape_from :
    (out_sz o : ℕ) (s : Bytes)
    → Lacks b'"' (escape_from out_sz o s)
      × (Lacks b'<' (escape_from out_sz o s) × Lacks b'>' (escape_from out_sz o s))
unfolding escape_from
Lacks-escape_from out_sz o [] = (tt, (tt, tt))
Lacks-escape_from out_sz o (c ∷ p) = elim (Bool-cases (ltb (o + 6) out_sz)) [
  | inl e ↦
      let tail = escape_from out_sz (o + length (escaped c)) p in
      let rest = Lacks-escape_from out_sz (o + length (escaped c)) p in
      let here = Lacks-escaped c in
      rw e (
        Lacks-append b'"' (escaped c) tail here.0 rest.0,
        (
          Lacks-append b'<' (escaped c) tail here.1.0 rest.1.0,
          Lacks-append b'>' (escaped c) tail here.1.1 rest.1.1,
        ),
      )
  | inr e ↦ rw e (tt, (tt, tt))
]

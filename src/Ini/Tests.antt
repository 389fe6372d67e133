-- ===== src/Ini/Tests.antt =====
-- common/ini.c: the theorems at one small structure.
use ps4_hen_plugins.Base.{
  ℕ, true, false, ◌||◌, none, some, List, [], ◌∷◌, ◌≡◌, refl, arith, ◌==◌, matches, codes,
}
use ps4_hen_plugins.Ini.{KeyValue, Section, IniFile, find}
use ps4_hen_plugins.Ini.Load.{ini_load}
use ps4_hen_plugins.Ini.Save.{print_file, print_line_end}
use ps4_hen_plugins.Ini.Store.{
  Allocs, ini_get, ini_set_with_comment, ini_delete_key, ini_delete_section,
}
use ps4_hen_plugins.Ini.Text.{isspace, is_quote}
use ps4_hen_plugins.Ini.Get.{ini_get-ini_set_with_comment}
use ps4_hen_plugins.Ini.Delete.{
  HasDistinctNames, ini_get-ini_delete_key, ini_get-ini_delete_section,
}
use ps4_hen_plugins.Ini.Bounded.Operations.{Op, set, delete_key, add_comment, apply_all, IsBounded?}
use ps4_hen_plugins.Ini.Bounded.Loading.{apply_all-ini_load-IsBounded?}
use ps4_hen_plugins.Ini.Printable.{
  ends_line, is_special, IsPrintable, IsPrintableKey, IsPrintableComment,
}
use ps4_hen_plugins.Ini.RoundTrip.Reread.{reread, ini_load-print_file}
use ps4_hen_plugins.Ini.RoundTrip.Values.{ini_get-ini_load-print_file}

abbrev entry : ℕ → ℕ → KeyValue
entry name value = record {
  key = name ∷ [];
  value = value ∷ [];
  comment = codes "o";
  comments_before = codes "n" ∷ [];
}

abbrev two_keys : Section
two_keys = record {
  name = codes "a";
  comment = [];
  comments_before = [];
  keys = entry b'x' b'1' ∷ entry b'y' b'2' ∷ [];
}

abbrev no_keys : Section
no_keys = record {
  name = codes "b";
  comment = codes "e";
  comments_before = codes "l" ∷ [];
  keys = [];
}

abbrev config : IniFile
config = record {
  sections = two_keys ∷ no_keys ∷ [];
  header_comments = codes "h" ∷ [];
  filename = some (codes "f");
  modified = false;
}

abbrev allocs : Allocs
allocs = record { for_section = true; for_key = true }

config-HasDistinctNames : HasDistinctNames config
unfolding matches
config-HasDistinctNames = record {
  section_names = ((refl, tt), (tt, tt));
  key_names = ((((refl, tt), (tt, tt))), (tt, tt));
}

letter-IsPrintableComment :
    (c : ℕ) → ends_line c ≡ false → isspace c ≡ false → IsPrintableComment (c ∷ [])
letter-IsPrintableComment c ends space = record {
  one_line = (ends, tt);
  trimmed = (space, space);
  fits = omega arith;
}

entry-IsPrintableKey :
    (name value : ℕ)
    → (is_special name || name == b'=') ≡ false
    → isspace name ≡ false
    → (name == b'[') ≡ false
    → is_special value ≡ false
    → isspace value ≡ false
    → IsPrintableKey (entry name value)
unfolding print_line_end isspace
entry-IsPrintableKey name value plain solid begins value_plain value_solid = record {
  key_plain = (plain, tt);
  key_trimmed = (solid, solid);
  key_begins = begins;
  key_fits = omega arith;
  value_plain = (value_plain, tt);
  value_trimmed = (value_solid, value_solid);
  value_fits = omega arith;
  comment_printable = letter-IsPrintableComment b'o' refl refl;
  comments_printable = (letter-IsPrintableComment b'n' refl refl, tt);
  line_fits = omega arith;
}

config-IsPrintable : IsPrintable config
unfolding isspace is_quote
config-IsPrintable = record {
  header_printable = (letter-IsPrintableComment b'h' refl refl, tt);
  sections_printable = (
    record {
      name_plain = (refl, tt);
      name_trimmed = (refl, refl);
      name_fits = omega arith;
      comment_printable = record { one_line = tt; trimmed = tt; fits = omega arith };
      comments_printable = tt;
      keys_printable = (
        entry-IsPrintableKey b'x' b'1' refl refl refl refl refl,
        (entry-IsPrintableKey b'y' b'2' refl refl refl refl refl, tt),
      );
    },
    (
      record {
        name_plain = (refl, tt);
        name_trimmed = (refl, refl);
        name_fits = omega arith;
        comment_printable = letter-IsPrintableComment b'e' refl refl;
        comments_printable = (letter-IsPrintableComment b'l' refl refl, tt);
        keys_printable = tt;
      },
      tt,
    ),
  );
}

ini_get-ini_set_with_comment_example :
    ini_get
      (ini_set_with_comment allocs
        (some config)
        (some (codes "a"))
        (some (codes "x"))
        (some (codes "9"))
        none).0
      (codes "a")
      (codes "x")
    ≡ some (codes "9")
unfolding ini_set_with_comment matches ini_get find
ini_get-ini_set_with_comment_example =
    ini_get-ini_set_with_comment allocs config (codes "a") (codes "x") (codes "9") none (codes "a")
      (codes "x") (omega arith) (omega arith)

ini_get-ini_delete_key_example :
    ini_get (ini_delete_key (some config) (codes "a") (codes "x")).0 (codes "a") (codes "x") ≡ none
unfolding matches
ini_get-ini_delete_key_example =
    ini_get-ini_delete_key config (codes "a") (codes "x") (codes "a") (codes "x")
      config-HasDistinctNames

ini_get-ini_delete_section_example :
    ini_get (ini_delete_section (some config) (codes "a")).0 (codes "a") (codes "y") ≡ none
unfolding matches
ini_get-ini_delete_section_example =
    ini_get-ini_delete_section config (codes "a") (codes "a") (codes "y") config-HasDistinctNames

abbrev operations : List Op
operations =
    set allocs (codes "a") (codes "k") (codes "v")
    ∷ add_comment true (some (codes "a")) (codes "c")
    ∷ delete_key (codes "a") (codes "x")
    ∷ []

apply_all-ini_load-IsBounded_example : IsBounded? (
    apply_all operations
      (ini_load (λ _. true) (codes "f") (some (codes "; top\n[a]\nx = 1 ; one\n"))))
apply_all-ini_load-IsBounded_example =
    apply_all-ini_load-IsBounded? (λ _. true) (codes "f") (some (codes "; top\n[a]\nx = 1 ; one\n"))
      operations

ini_load-print_file_example :
    ini_load (λ _. true) (codes "g") (some (print_file config)) ≡ some (reread (codes "g") config)
ini_load-print_file_example = ini_load-print_file (codes "g") config config-IsPrintable

ini_get-ini_load-print_file_example :
    ini_get (ini_load (λ _. true) (codes "g") (some (print_file config))) (codes "a") (codes "y")
    ≡ some (codes "2")
unfolding ini_get matches find
ini_get-ini_load-print_file_example =
    ini_get-ini_load-print_file (codes "g") config (codes "a") (codes "y") config-IsPrintable
      config-HasDistinctNames

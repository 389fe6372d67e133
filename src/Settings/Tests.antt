-- ===== src/Settings/Tests.antt =====
-- plugin_mono/source/shellui_patch/settings_menu.c: the theorems at small inputs.
use ps4_hen_plugins.Base.{true, none, some, [], ◌∷◌, ◌≡◌, refl, Bytes, codes}
use ps4_hen_plugins.Ini.{IniFile}
use ps4_hen_plugins.Settings.Replace.{
  add_before, replace_line, starts_with, line_rest, replaced_line, replace_at, replace_step,
  replace_loop, str_replace,
}
use ps4_hen_plugins.Settings.Matches.{Replaced}
use ps4_hen_plugins.Settings.StringId.{to_string_id64_w}
use ps4_hen_plugins.Settings.Handlers.{Element, Menu}

-- Before the match the line stays.
replaced_in_line :
    str_replace (codes "ab c\nd") (codes "b") (codes "X") 20 replace_line ≡ some (codes "aX\nd")
unfolding str_replace replace_loop replace_step replace_at starts_with line_rest replaced_line
replaced_in_line = refl

added : str_replace (codes "abab") (codes "b") (codes "XY") 20 add_before ≡ some (codes "aXYbaXYb")
unfolding str_replace replace_loop replace_step replace_at starts_with
added = refl

abbrev hen_ini : Bytes
hen_ini = codes "/data/hen/hen.ini"

-- The structure of a new file with one setting.
abbrev one_setting : IniFile
one_setting = record {
  sections =
      record {
        name = codes "HEN";
        comment = [];
        comments_before = [];
        keys =
            record { key = codes "a"; value = codes "1"; comment = []; comments_before = [] } ∷ [];
      }
      ∷ [];
  header_comments = [];
  filename = some hen_ini;
  modified = true;
}

abbrev switch : Bytes → Element
switch value = record { id = codes "a"; value = value; type = 8 }

abbrev payload_menu : Menu
payload_menu = record { page_id = to_string_id64_w (codes "payload_options"); files = λ path. none }

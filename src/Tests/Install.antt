-- ===== src/Tests/Install.antt =====
-- Claude's hooks installed and removed, on a small host with a small JSON library.
use agent_term_status.Prelude.{
  ◌≡◌, ◌≢◌, refl, String, String_eq, true, false, Option, some, none, List, [], ◌∷◌, length, arith,
  str_eq, if◌then◌else◌,
}
use agent_term_status.Prelude.HashMap.{HashMap, get, insert, remove, contains}
use agent_term_status.Claude.Install.{
  ClaudeSettings, user, is_ats, ats_hook_entry, install_hook, uninstall_hook, each, installed,
  uninstalled, install_hooks, settings_path, settings_with_hooks,
}
use agent_term_status.Claude.Install.Hooked.{
  uninstalled-installed, IsComplete, installed-IsComplete,
}
use agent_term_status.Claude.Install.Written.{IsInstalled, IsBroken, install_hooks-IsInstalled}
use agent_term_status.Config.Atomic.{replace_file}
use agent_term_status.Host.{Host, done, PathBuf}
use agent_term_status.Host.Files.{call, create_dir_all, copy, remove_file, read_to_string, text_at}
use agent_term_status.Host.Paths.{before_dot, with_extension, same_path_iff}
use agent_term_status.Host.Triples.{After}
use agent_term_status.Renderers.Process.{exited}
use agent_term_status.Tests.Claude.{JsonValue, object, text, field, no_fields, small_json}
use agent_term_status.Tests.Host.{small_tempfile, is_temp, small-IsLawful}

abbrev custom : JsonValue
custom = object (field "command" (text "echo hi") no_fields)

abbrev settings : ClaudeSettings small_json
settings = record {
  hooks = ("SessionStart", custom ∷ []) ∷ ("Other", custom ∷ []) ∷ [];
  ats_managed = [];
  extra = ("otherKey", text "value") ∷ [];
}

ours_test : is_ats small_json (ats_hook_entry small_json object) ≡ true
unfolding is_ats ats_hook_entry
ours_test = refl

added_test : length (installed small_json object settings).changed ≡ 8
unfolding each install_hook is_ats get insert
added_test = refl

removed_test :
    (uninstalled small_json
      (record settings { hooks = (installed small_json object settings).hooks })).hooks
    ≡ settings.hooks
unfolding each install_hook uninstall_hook is_ats ats_hook_entry get insert remove
removed_test = refl

uninstalled-installed_example :
    get "SessionStart"
      (uninstalled small_json
        (record settings { hooks = (installed small_json object settings).hooks })).hooks
    ≡ get "SessionStart" (uninstalled small_json settings).hooks
uninstalled-installed_example =
    uninstalled-installed small_json object ours_test settings "SessionStart"

installed-IsComplete_example :
    IsComplete small_json object ours_test
      (record settings { hooks = (installed small_json object settings).hooks })
installed-IsComplete_example = installed-IsComplete small_json object ours_test settings

-- Settings that do not parse are read as empty ones, and the file is replaced.
abbrev from_str : String → Option (ClaudeSettings small_json)
from_str s = if str_eq s "good" then some settings else none

abbrev to_value : HashMap String (List JsonValue) → JsonValue
to_value hooks = text "hooks"

abbrev to_string_pretty : HashMap String JsonValue → Option String
to_string_pretty m = if contains "otherKey" (keys_of m) then some "both" else some "only hooks"
  where
    keys_of : HashMap String JsonValue → List String
    keys_of [] = []
    keys_of ((k, v) ∷ rest) = k ∷ keys_of rest

abbrev home : Option PathBuf
home = some ("/home/me" ∷ [])

abbrev settings_file : PathBuf
settings_file = "/home/me" ∷ ".claude" ∷ "settings.json" ∷ []

abbrev host : Host
host = record {
  files = (settings_file, record { contents = "{ half"; mode = 420 }) ∷ [];
  dirs = [];
  file_mode = 420;
  dir_mode = 493;
  calls = 0;
  verdict = λ n. done;
  printed = [];
  signalled = [];
  outside = record { log = []; exit = λ n. exited true (some "") "" };
}

lost_test :
    text_at settings_file
      (install_hooks small_json object from_str to_value to_string_pretty small_tempfile home user
        false host).0
    ≡ some "only hooks"
unfolding install_hooks settings_path replace_file create_dir_all copy remove_file read_to_string
    call get insert remove before_dot each install_hook is_ats settings_with_hooks contains
lost_test = refl

apart_test : with_extension settings_file "json.bak" ≢ settings_file
unfolding before_dot
apart_test e =
    ground (arith, same_path_iff (with_extension settings_file "json.bak") settings_file, e)

install_hooks-IsInstalled_example :
    After
      (IsInstalled small_json object from_str to_value to_string_pretty is_temp home user false
        host)
      (IsBroken small_json object from_str to_value to_string_pretty is_temp home user false host)
      (install_hooks small_json object from_str to_value to_string_pretty small_tempfile home user
        false host)
unfolding settings_path
install_hooks-IsInstalled_example =
    install_hooks-IsInstalled small_json object from_str to_value to_string_pretty is_temp home user
      false host small_tempfile small-IsLawful refl apart_test

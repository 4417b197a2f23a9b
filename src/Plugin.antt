-- ===== src/Plugin.antt =====
-- plugin.c: `handle_plugin`, the choice of a command by the words of the command line. A function of a
-- command is a number. What is printed is left out.
pub mod Dispatch
use switchtec_nvme_cli.Base.{
  ℕ, Bool, true, false, ◌||◌, List, [], ◌∷◌, length, drop, Option, none, some, ◌==◌, if◌then◌else◌,
}
use switchtec_nvme_cli.Text.Search.{codes, starts_with}
use switchtec_nvme_cli.Parser.Match.{same_text}

-- `struct command`
pub record Command : Type 0 where
  pub name : List ℕ
  pub alias : Option (List ℕ)
  pub fn : ℕ

-- `struct plugin` of an extension; the built-in plugin has no name.
pub record Plugin : Type 0 where
  pub name : List ℕ
  pub commands : List Command

-- What is called in the end, with the words that it gets.
pub data Call : Type 0 where
  general_help : Call
  help : List (List ℕ) → Call
  version : Call
  run : (fn : ℕ) → List (List ℕ) → Call
  -- -ENOTTY
  invalid : Call

-- "translate --help and --version into commands"
unfoldable pub without_dashes : List ℕ → List ℕ
without_dashes [] = []
without_dashes (c ∷ s) = let rest = without_dashes s in if c == b'-' then rest else c ∷ s

abbrev pub is_alias : List ℕ → Option (List ℕ) → Bool
is_alias str none = false
is_alias str (some alias) = same_text str alias

-- The first command with that name or alias.
unfoldable pub find_command : (str : List ℕ) → List Command → Option ℕ
find_command str [] = none
find_command str (cmd ∷ commands) =
    let rest = find_command str commands in
    if same_text str cmd.name || is_alias str cmd.alias then some cmd.fn else rest

-- Help, the version, or a command of the plugin; `none` to go on.
unfoldable pub own_call : (str : List ℕ) → List Command → (argv : List (List ℕ)) → Option Call
own_call str commands argv =
    if same_text str (codes "help")
    then some (Call.help argv)
    else if same_text str (codes "version")
    then some Call.version
    else elim (find_command str commands) [ none ↦ none | some fn ↦ some (Call.run fn argv) ]

abbrev pub or_invalid : Option Call → Call
or_invalid none = Call.invalid
or_invalid (some call) = call

-- `handle_plugin` of an extension.
unfoldable pub handle_extension : Plugin → (argv : List (List ℕ)) → Call
handle_extension plugin [] = Call.general_help
handle_extension plugin (word ∷ argv) =
    or_invalid (own_call (without_dashes word) plugin.commands (word ∷ argv))

-- The first extension with that name, and the first whose name the word begins with.
unfoldable pub find_named : (str : List ℕ) → List Plugin → Option Plugin
find_named str [] = none
find_named str (extension ∷ rest) =
    let later = find_named str rest in
    if same_text str extension.name then some extension else later

unfoldable pub find_prefix : (str : List ℕ) → List Plugin → Option Plugin
find_prefix str [] = none
find_prefix str (extension ∷ rest) =
    let later = find_prefix str rest in
    if starts_with extension.name str then some extension else later

-- The extensions: "nvme plugin command", or "plugin-command" in one word, of which the name is taken off
-- as the word was given.
unfoldable pub extension_call : (str word : List ℕ) → (argv : List (List ℕ)) → List Plugin → Call
extension_call str word argv extensions = elim (find_named str extensions) [
  | some extension ↦ handle_extension extension argv
  | none ↦ elim (find_prefix str extensions) [
    | none ↦ Call.invalid
    | some extension ↦
        handle_extension extension (without_dashes (drop (length extension.name) word) ∷ argv)
  ]
]

-- `handle_plugin` of the built-in plugin, with the extensions behind it.
unfoldable pub handle_plugin :
    (commands : List Command) → (extensions : List Plugin) → (argv : List (List ℕ)) → Call
handle_plugin commands extensions [] = Call.general_help
handle_plugin commands extensions (word ∷ argv) =
    let str = without_dashes word in
    elim (own_call str commands (word ∷ argv)) [
      | some call ↦ call
      | none ↦ extension_call str word argv extensions
    ]

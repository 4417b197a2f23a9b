-- ===== src/Plugin/Dispatch.antt =====
-- The two spellings of a command of an extension.
use switchtec_nvme_cli.Base.{
  ℕ, ◌≡◌, ◌≢◌, refl, ◌∙◌, ap, sym, List, [], ◌∷◌, ◌++◌, length, drop, none, some, arith,
}
use switchtec_nvme_cli.Plugin.{
  Command, Plugin, without_dashes, own_call, find_named, find_prefix, handle_extension,
  extension_call, handle_plugin,
}

drop-append : (xs ys : List ℕ) → drop (length xs) (xs ++ ys) ≡ ys
drop-append [] ys = refl
drop-append (x ∷ xs) ys = drop-append xs ys

-- A word that begins with something other than a dash.
abbrev pub NoDash : List ℕ → Type 0
NoDash [] = ⊥
NoDash (c ∷ s) = c ≢ b'-'

without_dashes-NoDash : (s : List ℕ) → NoDash s → without_dashes s ≡ s
unfolding without_dashes
without_dashes-NoDash [] h = absurd h
without_dashes-NoDash (c ∷ s) h = ground (arith, h)

without_dashes-dash : (s : List ℕ) → without_dashes (b'-' ∷ s) ≡ without_dashes s
unfolding without_dashes
without_dashes-dash s = refl

-- A word without a dash in front that is no command of the built-in plugin goes to the extensions.
handle_plugin-free :
    (commands : List Command) (extensions : List Plugin) (word : List ℕ) (argv : List (List ℕ))
    → NoDash word
    → own_call word commands (word ∷ argv) ≡ none
    → handle_plugin commands extensions (word ∷ argv) ≡ extension_call word word argv extensions
unfolding handle_plugin
handle_plugin-free commands extensions word argv w free =
    let same = without_dashes-NoDash word w in
    let free_word : own_call (without_dashes word) commands (word ∷ argv) ≡ none =
      ap (λ str. own_call str commands (word ∷ argv)) same ∙ free in
    rw (handle_plugin, free_word) (ap (λ str. extension_call str word argv extensions) same)

-- A command of an extension can be given in one word: "plugin-command" with further words calls what "plugin
-- command" calls, and with the same words behind the name. Neither "plugin" nor the whole word is a command (or "help" or
-- "version") of the built-in plugin, no extension has the whole word for a name, and no other extension stands in front that has
-- the name, or a name that the word begins with. Neither "plugin" nor "command" begins with a dash.
pub handle_plugin-one_word :
    (commands : List Command) (extensions : List Plugin) (extension : Plugin) (command : List ℕ)
    (argv : List (List ℕ))
    → let name = extension.name in
      let word = name ++ b'-' ∷ command in
      NoDash name
      → NoDash word
      → NoDash command
      → own_call name commands (name ∷ command ∷ argv) ≡ none
      → own_call word commands (word ∷ argv) ≡ none
      → find_named name extensions ≡ some extension
      → find_named word extensions ≡ none
      → find_prefix word extensions ≡ some extension
      → handle_plugin commands extensions (word ∷ argv)
        ≡ handle_plugin commands extensions (name ∷ command ∷ argv)
unfolding extension_call
handle_plugin-one_word commands extensions extension command argv n w c free_name free named other
      prefix =
    let name = extension.name in
    let word = name ++ b'-' ∷ command in
    let rest : without_dashes (drop (length name) word) ≡ command =
      ap without_dashes (drop-append name (b'-' ∷ command))
      ∙ without_dashes-dash command
      ∙ without_dashes-NoDash command c in
    let one : extension_call word word argv extensions
        ≡ handle_extension extension (command ∷ argv) =
      rw (extension_call, other, prefix, rest) refl in
    let two : extension_call name name (command ∷ argv) extensions
        ≡ handle_extension extension (command ∷ argv) =
      rw (extension_call, named) refl in
    handle_plugin-free commands extensions word argv w free
    ∙ one
    ∙ sym two
    ∙ sym (handle_plugin-free commands extensions name (command ∷ argv) n free_name)

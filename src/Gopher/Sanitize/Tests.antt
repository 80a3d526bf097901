-- ===== src/Gopher/Sanitize/Tests.antt =====
-- Runs of the quoting and the theorems about it at concrete paths.
use sacagawea.Common.{◌+◌, [], ◌∷◌, some, ◌≡◌, refl, length, codes}
use sacagawea.Gopher.Sanitize.{
  sanitize_path, sanitize_size, command, command_size, sanitize_path_fits,
}
use sacagawea.Gopher.Sanitize.Shell.{shell_words, shell_words-command}

sanitize_one_quote : sanitize_path (codes "/srv/it's") ≡ codes "/srv/it'\\''s"
unfolding sanitize_path
sanitize_one_quote = refl

sanitize_path_fits_example :
    (length (sanitize_path (codes "/a'b")) + 1 ≡ sanitize_size (codes "/a'b"))
    × (length (command (codes "/a'b")) + 1 ≡ command_size (sanitize_path (codes "/a'b")))
sanitize_path_fits_example = sanitize_path_fits (codes "/a'b")

shell_words-command_example :
    shell_words (command (codes "/a'; rm -rf $HOME"))
    ≡ some (codes "file" ∷ codes "-bi" ∷ codes "/a'; rm -rf $HOME" ∷ [])
shell_words-command_example = shell_words-command (codes "/a'; rm -rf $HOME")

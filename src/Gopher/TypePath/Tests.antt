-- ===== src/Gopher/TypePath/Tests.antt =====
-- Runs of the classification, and its theorems at concrete outputs.
use sacagawea.Common.{str_eq, true, false, ◌≡◌, refl, Bytes, codes, starts_with, returns, exits}
use sacagawea.Gopher.TypePath.{FileInfo, Stream, output, failed, type_path, type_path_win32}

abbrev html_file : Bytes → Stream
html_file command = output (codes "text/html; charset=us-ascii\n")

abbrev no_file : Bytes → Stream
no_file command = output (codes "cannot open `/srv/x'\n")

type_html : type_path html_file (codes "") (codes "/srv/index") ≡ returns b'h'
unfolding type_path starts_with
type_html = refl

-- A message that is longer than the array: its last piece counts.
abbrev long_message : Bytes → Stream
long_message command = output (
    codes "cannot open `/srv/aaaaaaaaaaaaaaaaaaaaaaaaaaaaaaaaaaaaaaaaaaaaatext/x' (No such file)\n")

type_long : type_path long_message (codes "") (codes "/srv/a") ≡ returns b'0'
unfolding type_path starts_with
type_long = refl

no_shell : type_path (λ _. failed) (codes "") (codes "/srv/index") ≡ exits 5
unfolding type_path starts_with
no_shell = refl

-- What Windows knows of a song.
abbrev song : Bytes → FileInfo
song path = record { exists = true; directory = false; extension = codes ".ogg" }

type_song : type_path_win32 song (codes "a.ogg") ≡ b's'
unfolding type_path_win32 str_eq
type_song = refl

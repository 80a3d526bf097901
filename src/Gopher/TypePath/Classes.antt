-- ===== src/Gopher/TypePath/Classes.antt =====
-- Which outputs of `file -bi` give which gopher type.
use sacagawea.Common.{
  ◌>>=◌, fgets, returns, Bool, true, false, ◌||◌, [], ◌∷◌, ◌++◌, ◌≡◌, ◌≢◌, ◌↔◌, refl, arith, Bytes,
  codes, starts_with,
}
use sacagawea.Gopher.TypePath.{
  skip_message, unreadable, failed, output, command, read_output, Stream, type_path, text_0,
  image_i, dir_1, empty_0, application_9, audio_s, multipart_m, mime_char,
}

-- Two prefixes of one text agree as far as the shorter one goes.
starts_with-append : (p q s : Bytes) → starts_with (p ++ q) s ≡ true → starts_with p s ≡ true
unfolding starts_with
starts_with-append [] q s h = refl
starts_with-append (x ∷ p) q [] h = h
starts_with-append (x ∷ p) q (c ∷ s) h = ground (arith, starts_with-append p q s)

-- The output names one of the classes of the menu: no other type than '3' is given to the rest.
abbrev pub is_known : Bytes → Bool
is_known out =
    starts_with dir_1 out
    || starts_with multipart_m out
    || starts_with application_9 out
    || starts_with audio_s out
    || starts_with text_0 out
    || starts_with empty_0 out
    || starts_with image_i out

-- The type '4' is given to no output at all: the test for "application/" stands above the one for
-- "application/mac" and takes what that would match.
pub mime_char-ne-mac : (out : Bytes) → mime_char out ≢ b'4'
unfolding mime_char
mime_char-ne-mac out = ground (arith, starts_with-append application_9 (codes "mac") out)

-- A path is an error, type '3', exactly where the output names no class of the menu.
pub mime_char-error_iff : (out : Bytes) → (mime_char out ≡ b'3') ↔ (is_known out ≡ false)
unfolding mime_char
mime_char-error_iff out = ground (
  arith,
  starts_with-append application_9 (codes "mac") out,
  starts_with-append application_9 (codes "gopher") out,
  starts_with-append text_0 (codes "html") out,
  starts_with-append image_i (codes "gif") out,
)

-- Whatever a path is and whatever `file -bi` answers, `type_path` never gives it the type '4' of a
-- Macintosh file.
pub type_path-ne-mac :
    (popen : Bytes → Stream) (stale path : Bytes) → type_path popen stale path ≢ returns b'4'
unfolding type_path
type_path-ne-mac popen stale path h = split (popen (command path)) h
  where
    named : (out : Bytes) → returns (mime_char out) ≢ returns b'4'
    named out h = mime_char-ne-mac out (ground (arith, h))

    split : (s : Stream) → (read_output stale s >>= λ out. returns (mime_char out)) ≢ returns b'4'
    split failed h = cc
    split unreadable h = cc
    split (output []) h = named stale h
    split (output (c ∷ out)) h =
        named (skip_message (fgets 63 (c ∷ out)).0 (fgets 63 (c ∷ out)).1) h

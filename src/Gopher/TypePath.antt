-- ===== src/Gopher/TypePath.antt =====
-- `type_path` of src/sacagalib/gopher.c: the gopher type of a path. On Linux it is read off the
-- output of `file -bi`, on Windows off the extension. What `popen` and the Win32 calls answer is a
-- parameter; a process that fails to start or to be read ends the caller by `exit(5)`.
pub mod Classes
mod Tests
use sacagawea.Common.{
  zero, suc, length, ℕ, Bool, ◌||◌, [], ◌∷◌, if◌then◌else◌, Bytes, codes, starts_with, str_eq,
  fgets, Process, returns, exits, ◌>>=◌,
}
use sacagawea.Gopher.Sanitize.{command}

-- The prefixes of a MIME type that sacagalib.h defines.
abbrev pub text_0 : Bytes
text_0 = codes "text/"

abbrev pub html_h : Bytes
html_h = codes "text/html"

abbrev pub gif_g : Bytes
gif_g = codes "image/gif"

abbrev pub image_i : Bytes
image_i = codes "image/"

abbrev pub dir_1 : Bytes
dir_1 = codes "inode/directory"

abbrev pub empty_0 : Bytes
empty_0 = codes "inode/x-empty"

abbrev pub gopher_1 : Bytes
gopher_1 = codes "application/gopher"

abbrev pub mac_4 : Bytes
mac_4 = codes "application/mac"

abbrev pub application_9 : Bytes
application_9 = codes "application/"

abbrev pub audio_s : Bytes
audio_s = codes "audio/"

abbrev pub multipart_m : Bytes
multipart_m = codes "multipart/mixed"

-- The ladder of `strncmp` tests on the output.
pub mime_char : Bytes → ℕ
mime_char out =
    if starts_with dir_1 out
    then b'1'
    else if starts_with gopher_1 out
    then b'7'
    else if starts_with multipart_m out
    then b'M'
    else if starts_with application_9 out
    then b'9'
    else if starts_with audio_s out
    then b's'
    else if starts_with html_h out
    then b'h'
    else if starts_with text_0 out || starts_with empty_0 out
    then b'0'
    else if starts_with gif_g out
    then b'g'
    else if starts_with image_i out
    then b'I'
    else if starts_with mac_4 out
    then b'4'
    else b'3'

-- What `popen` and the stream behind it do: fail, break at the first read, or deliver an output, at whose
-- end a read error counts as the end if bytes came before it.
pub data Stream : Type 0 where
  failed unreadable : Stream
  output : Bytes → Stream

-- What `fgets(popen_output, 64, …)` leaves in the array when it is called until it finds nothing more,
-- with `piece` in it before; `fuel` bounds the calls.
pub last_piece : ℕ → Bytes → Bytes → Bytes
last_piece zero piece s = piece
last_piece (suc fuel) piece [] = piece
last_piece (suc fuel) piece (c ∷ s) =
    let (next, rest) = fgets 63 (c ∷ s) in last_piece fuel next rest

-- An output that begins with "cannot" is read to its end, of which the last piece counts. Each piece
-- takes at least one byte.
pub skip_message : Bytes → Bytes → Bytes
unfolding last_piece
skip_message piece rest =
    if starts_with (codes "cannot") piece then last_piece (length rest) piece rest else piece

-- The first call of `fgets`: at the end of the stream the array keeps its stale contents.
pub read_output : Bytes → Stream → Process Bytes
unfolding skip_message
read_output stale failed = exits 5
read_output stale unreadable = exits 5
read_output stale (output []) = returns stale
read_output stale (output (c ∷ out)) =
    let (piece, rest) = fgets 63 (c ∷ out) in returns (skip_message piece rest)

unfoldable pub type_path : (Bytes → Stream) → Bytes → Bytes → Process ℕ
unfolding read_output mime_char
type_path popen stale path = do
  out ← read_output stale (popen (command path))
  returns (mime_char out)

-- The Windows branch: the file's attributes, whether it is a directory, and its extension.
pub record FileInfo : Type 0 where
  pub exists : Bool
  pub directory : Bool
  pub extension : Bytes

-- Whether the extension is one of a list.
pub one_of : Bytes → Bytes → Bytes → Bytes → Bool
one_of e a b c = str_eq e a || str_eq e b || str_eq e c

is_binary : Bytes → Bool
unfolding one_of
is_binary e =
    one_of e (codes ".exe") (codes ".bin") (codes ".dll")
    || one_of e (codes ".so") (codes ".out") (codes ".lib")
    || one_of e (codes ".zip") (codes ".gz") (codes ".tgz")
    || one_of e (codes ".bzip2") (codes ".a") (codes ".iso")
    || str_eq e (codes ".7z")
    || str_eq e (codes ".pdf")

is_media : Bytes → Bool
unfolding one_of
is_media e =
    one_of e (codes ".mp3") (codes ".ogg") (codes ".wav")
    || one_of e (codes ".aiff") (codes ".mp4") (codes ".mpg")
    || str_eq e (codes ".avi")
    || str_eq e (codes ".webm")

is_image : Bytes → Bool
unfolding one_of
is_image e = one_of e (codes ".jpg") (codes ".jpeg") (codes ".png") || str_eq e (codes ".tiff")

pub extension_char : Bytes → ℕ
unfolding is_binary is_media is_image
extension_char e =
    if is_binary e
    then b'9'
    else if str_eq e (codes ".htm")
    then b'h'
    else if str_eq e (codes ".gif")
    then b'g'
    else if is_media e
    then b's'
    else if is_image e
    then b'I'
    else b'0'

unfoldable pub type_path_win32 : (Bytes → FileInfo) → Bytes → ℕ
unfolding extension_char
type_path_win32 info path =
    let f = info path in
    if f.exists then if f.directory then b'1' else extension_char f.extension else b'3'

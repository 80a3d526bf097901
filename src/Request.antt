-- ===== src/Request.antt =====
-- `read_request` of src/sacagalib/children.c: the loop that receives a request up to "\r\n".
-- What each call of `recv` finds is a list of arrivals, one for each call; the list ends where the
-- client has sent nothing more and the loop still spins on EWOULDBLOCK. `buf` holds the bytes that
-- have been received, so its length is `total_recv`; behind them the array that `calloc` gave is zero.
pub mod Scan
pub mod Stream
pub mod Lines
mod Tests
use sacagawea.Common.{
  ℕ, zero, suc, ◌+◌, ◌-◌, Bool, ◌&&◌, List, [], ◌∷◌, ◌++◌, Option, none, some, ltb, leb, ◌==◌,
  if◌then◌else◌, get_or, take, length, Bytes,
}

-- The answers of one call of `recv`. No bytes mean that the client closed the connection.
pub data Arrival : Type 0 where
  received : Bytes → Arrival
  would_block : Arrival
  failed : Arrival

-- `-1`, or the request and the number that is returned; `waiting` where the arrivals have run out.
pub data Outcome : Type 0 where
  refused waiting : Outcome
  request : Bytes → ℕ → Outcome

-- The test of the inner loop at index `i` of the array.
pub ends_at : Bytes → ℕ → Bool
ends_at buf i = ltb 0 i && get_or buf (i - 1) 0 == b'\r' && get_or buf i 0 == b'\n'

-- The inner loop, from `i` for the bytes that are left: where it breaks, if it does.
unfoldable pub scan : ℕ → Bytes → ℕ → Option ℕ
unfolding ends_at
scan zero buf i = none
scan (suc left) buf i = let later = scan left buf (i + 1) in if ends_at buf i then some i else later

-- After the break: the byte in front of `i` becomes the NUL, and `i` is returned.
abbrev pub finish : Bytes → Option ℕ → Outcome → Outcome
finish buf none next = next
finish buf (some i) next = request (take (i - 1) buf) i

-- The outer loop. `recv` is asked for no more than the room that is left, and gives no more.
pub receive : ℕ → List Arrival → Bytes → Outcome
unfolding scan
receive buflen [] buf = if leb buflen (length buf) then refused else waiting
receive buflen (failed ∷ rest) buf = refused
receive buflen (would_block ∷ rest) buf =
    let again = receive buflen rest buf in if leb buflen (length buf) then refused else again
receive buflen (received bytes ∷ rest) buf =
    let start = length buf in
    let got = take (buflen - start) bytes in
    let buf' = buf ++ got in
    let again = receive buflen rest buf' in
    if leb buflen start
    then refused
    else if length got == 0
    then refused
    else finish buf' (scan (length got) buf' start) again

unfoldable pub read_request : ℕ → List Arrival → Outcome
unfolding receive
read_request buflen arrivals = receive buflen arrivals []

-- ===== src/Request/Tests.antt =====
-- Runs of `read_request`, and its theorems at concrete arrivals.
use sacagawea.Request.Lines.{read_request_complete}
use sacagawea.Request.Stream.{read_request-answer, ended, stream, answer}
use sacagawea.Common.{arith, starts_with, contains, List, refl, ◌≡◌, [], ◌∷◌, codes}
use sacagawea.Request.{Arrival, refused, request, would_block, received, read_request}

-- The line end is split over two packets.
split_end :
    read_request 64 (received (codes "/a\r") ∷ would_block ∷ received (codes "\nxx") ∷ [])
    ≡ request (codes "/a") 3
unfolding read_request
split_end = refl

too_long : read_request 4 (received (codes "abcdef\r\n") ∷ []) ≡ refused
unfolding read_request
too_long = refl

abbrev packets : List Arrival
packets = received (codes "/a\r") ∷ would_block ∷ received (codes "\nxx") ∷ []

read_request-answer_example : read_request 64 packets ≡ answer 64 (stream packets) (ended packets)
read_request-answer_example = read_request-answer 64 packets

read_request_complete_example : read_request 64 packets ≡ request (codes "/a") 3
unfolding contains starts_with
read_request_complete_example =
    read_request_complete 64 packets (codes "/a") (codes "xx") refl refl (omega arith)

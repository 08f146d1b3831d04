-- ===== src/Examples/Http.antt =====
-- Requests over HTTP.
use bt_server.Prelude.{
  ℕ, ◌+◌, ◌≡◌, refl, List, [], ◌∷◌, ◌++◌, none, false, true, inl, inr, arith, length,
}
use bt_server.Scan.{scan_urlencoded_query, scan_loop, stop, continues}
use bt_server.Scan.Keywords.{find_keyword, match_keyword, scan_find_keywords, strncmp_equal}
use bt_server.Scan.Bounds.{HasEnd}
use bt_server.Scan.Number.{scan_fixed_int, as_text, digits_loop}
use bt_server.Tracker.{mutex_init}
use bt_server.Tracker.History.{mutex_init-TrackerRight, mutex_init-Roomy, mutex_init-total}
use bt_server.Http.{codes, parsed}
use bt_server.Http.Ends.{Ends}
use bt_server.Http.Queries.{query}
use bt_server.Http.Handlers.{http_handle_announce, http_handle_scrape}
use bt_server.Http.Composed.{Answered, http_handle_announce-Answered, http_handle_scrape-Answered}
use bt_server.Http.Request.{
  reply_off, zd, header, framed_size, size_off, header_length, header_frame,
}
use bt_server.Http.Stats.{
  Features, http_handle_stats, by_fullscrape, stats_loop, take_value, deliver,
}
use bt_server.Examples.Data.{env}

-- What stands behind the '?' of a request, up to its empty line.
abbrev request : List ℕ → List ℕ
request s = s ++ codes " HTTP/1.1\r\n\r\n"

abbrev line : List ℕ
line = codes "port=6881&left=0"

HasEnd-request : (s : List ℕ) → HasEnd b'\n' (request s)
HasEnd-request [] = inr (inr (inr (inr (inr (inr (inr (inr (inr (inr (inl refl))))))))))
HasEnd-request (c ∷ s) = inr (HasEnd-request s)

abbrev twenty : List ℕ
twenty = codes "info_hash=aaaaaaaaaaaaaaaaaaaa"

http_handle_announce-Answered_example :
    Answered
      (query (request line) true)
      (http_handle_announce env 0x7f000001 b'?' (request line) mutex_init)
http_handle_announce-Answered_example =
    http_handle_announce-Answered env 0x7f000001 mutex_init mutex_init-TrackerRight mutex_init-Roomy
      b'?' (request line) (HasEnd-request line)

http_handle_scrape-Answered_example :
    Answered
      (query (request twenty) false)
      (http_handle_scrape (λ n. env) b'?' (request twenty) mutex_init)
http_handle_scrape-Answered_example =
    http_handle_scrape-Answered (λ n. env) mutex_init mutex_init-TrackerRight b'?' (request twenty)
      (omega (arith, mutex_init-total)) (HasEnd-request twenty)

header_frame_example :
    (reply_off 250 + length (zd 250) ≡ size_off)
    × (reply_off 250 + length (header 250) + 1 ≡ header_length)
    × (reply_off 250 + framed_size 250 ≡ header_length + 250)
header_frame_example = header_frame 250 (omega arith)

-- "4294967296", what is left of 4 GiB.
abbrev more_digits : List ℕ
more_digits = 2 ∷ 9 ∷ 4 ∷ 9 ∷ 6 ∷ 7 ∷ 2 ∷ 9 ∷ 6 ∷ []

four_gib_overflows : scan_fixed_int (as_text (4 ∷ more_digits) ++ (b'&' ∷ [])) 11 ≡ none
unfolding scan_fixed_int digits_loop
four_gib_overflows = refl

abbrev open_site : Features
open_site = record { restricts_stats = false; fullscrapes = true }

-- A mode of the full scrapes without its format.
abbrev no_format : List ℕ
no_format = request (codes "mode=tpbs")

no_format_run : http_handle_stats open_site false no_format ≡ parsed (by_fullscrape 0)
unfolding http_handle_stats stats_loop take_value deliver scan_find_keywords find_keyword
    match_keyword strncmp_equal scan_urlencoded_query scan_loop stop continues
no_format_run = refl

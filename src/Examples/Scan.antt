-- ===== src/Examples/Scan.antt =====
-- Request lines.
use bt_server.Prelude.{ℕ, ◌≡◌, refl, List, [], ◌∷◌, ◌++◌, inl, inr, arith}
use bt_server.Prelude.Int.{pos}
use bt_server.Scan.Number.{as_text, value_of, at_place, Reads, scan_fixed_int-Reads}
use bt_server.Scan.{
  scanned, scan_urlencoded_query, scan_path, scan_param, scan_loop, continues, is_unreserved,
  unescape, fromhex, stop,
}
use bt_server.Scan.Keywords.{
  find_keyword, match_keyword, strncmp_equal, Keyword, behind_keyword, scan_find_keywords,
}
use bt_server.Scan.Lookup.{HasNoNul, LooksUp, scan_find_keywords-LooksUp}
use bt_server.Scan.Decode.{percent_encode, scan-percent_encode}
use bt_server.Scan.Bounds.{HasEnd, IsInside, InPlace, scan_urlencoded_query-IsInside}

scan-percent_encode_example :
    scan_urlencoded_query scan_path (percent_encode (0 ∷ 255 ∷ []) ++ (b' ' ∷ 0 ∷ []))
    ≡ scanned (b' ' ∷ 0 ∷ []) (0 ∷ 255 ∷ [])
scan-percent_encode_example =
    scan-percent_encode scan_path 0 (255 ∷ []) (0 ∷ []) (inl refl) (omega arith)

abbrev line : List ℕ
line = b'a' ∷ b'%' ∷ b'4' ∷ b'1' ∷ b'=' ∷ b'\n' ∷ []

line-HasEnd : HasEnd b'\n' line
line-HasEnd = inr (inr (inr (inr (inr (inl refl)))))

scan_urlencoded_query-IsInside_example :
    IsInside b'\n' (scan_urlencoded_query scan_param line)
    × InPlace line (scan_urlencoded_query scan_param line)
scan_urlencoded_query-IsInside_example =
    scan_urlencoded_query-IsInside b'\n' refl scan_param line (inr (inl refl)) line-HasEnd

abbrev port : Keyword
port = record { key = b'p' ∷ b'o' ∷ b'r' ∷ b't' ∷ []; value = pos 1 }

abbrev left : Keyword
left = record { key = b'l' ∷ b'e' ∷ b'f' ∷ b't' ∷ []; value = pos 2 }

abbrev left_line : List ℕ
left_line = b'l' ∷ b'e' ∷ b'%' ∷ b'6' ∷ b'6' ∷ b't' ∷ b'=' ∷ b'\n' ∷ []

port-HasNoNul : HasNoNul port.key
port-HasNoNul = (λ e. cc, (λ e. cc, (λ e. cc, (λ e. cc, tt))))

left-HasNoNul : HasNoNul left.key
left-HasNoNul = (λ e. cc, (λ e. cc, (λ e. cc, (λ e. cc, tt))))

left_line-scanned : scan_urlencoded_query scan_param left_line ≡ scanned (b'\n' ∷ []) left.key
unfolding scan_urlencoded_query scan_loop continues is_unreserved unescape fromhex stop
left_line-scanned = refl

scan_find_keywords-LooksUp_example :
    LooksUp port
      (left ∷ [])
      (b'\n' ∷ [])
      left.key
      (scan_find_keywords (port ∷ left ∷ []) scan_param left_line)
scan_find_keywords-LooksUp_example =
    scan_find_keywords-LooksUp port (left ∷ []) scan_param left_line (b'\n' ∷ []) left.key
      (port-HasNoNul, (left-HasNoNul, tt)) left_line-scanned (λ e. cc) (inl left-HasNoNul)

-- "port%00%00="
abbrev nul_line : List ℕ
nul_line = b'p' ∷ b'o' ∷ b'r' ∷ b't' ∷ b'%' ∷ b'0' ∷ b'0' ∷ b'%' ∷ b'0' ∷ b'0' ∷ b'=' ∷ b'\n' ∷ []

overrun_run : scan_find_keywords (port ∷ left ∷ []) scan_param nul_line ≡ behind_keyword
unfolding scan_find_keywords find_keyword match_keyword strncmp_equal scan_urlencoded_query
    scan_loop continues is_unreserved unescape fromhex stop
overrun_run = refl

-- "42&", "-42&"
scan_fixed_int-Reads_example :
    Reads (value_of (4 ∷ 2 ∷ [])) 3 (as_text (4 ∷ 2 ∷ []) ++ (b'&' ∷ [])) 1
unfolding value_of at_place
scan_fixed_int-Reads_example =
    scan_fixed_int-Reads 4 (2 ∷ []) (b'&' ∷ []) 1 (omega arith, (omega arith, tt)) (inr refl)
      (omega arith) (inl (omega arith))

-- ===== src/Examples/Header.antt =====
-- The header of a request.
use bt_server.Prelude.{◌≡◌, refl, [], ◌∷◌, ◌++◌}
use bt_server.Http.{codes}
use bt_server.Header.{run_of, search_end, header_complete}
use bt_server.Header.States.{first_end, header_complete-first_end}

header_complete-first_end_example :
    header_complete (codes "GET /" ++ (13 ∷ 10 ∷ 13 ∷ 10 ∷ []))
    ≡ first_end [] (codes "GET /" ++ (13 ∷ 10 ∷ 13 ∷ 10 ∷ [])) 0
header_complete-first_end_example =
    header_complete-first_end (codes "GET /" ++ (13 ∷ 10 ∷ 13 ∷ 10 ∷ []))

complete_run : header_complete (codes "GET /" ++ (13 ∷ 10 ∷ 13 ∷ 10 ∷ 7 ∷ [])) ≡ 9
unfolding header_complete search_end run_of
complete_run = refl

incomplete_run : header_complete (codes "GET /" ++ (13 ∷ 10 ∷ [])) ≡ 0
unfolding header_complete search_end run_of
incomplete_run = refl

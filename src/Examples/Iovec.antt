-- ===== src/Examples/Iovec.antt =====
-- A vector of three pages, of which one is used.
use bt_server.Prelude.{[], ◌∷◌, arith}
use bt_server.Iovec.{Iovec, iovec_fixlast}
use bt_server.Iovec.Pages.{FixedRight, iovec_fixlast-FixedRight}

abbrev three_pages : Iovec
three_pages = record { iov_base = 0x10_0000; iov_len = 0x3000 }

iovec_fixlast-FixedRight_example :
    FixedRight 0x1000
      (omega arith)
      0x10_0123
      three_pages
      []
      (iovec_fixlast 0x1000 0x10_0123 (three_pages ∷ []))
iovec_fixlast-FixedRight_example =
    iovec_fixlast-FixedRight 0x1000 (omega arith) 0x10_0123 three_pages [] (omega arith)
      (omega arith)

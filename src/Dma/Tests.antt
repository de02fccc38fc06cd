-- ===== src/Dma/Tests.antt =====
-- A payload of ten bytes that reaches the end of its buffer.
use flex_toe.Prelude.{◌*◌, ◌+◌, ◌≡◌, arith, some}
use flex_toe.Dma.{lands, prepare_dma_cmd, transfers}
use flex_toe.Dma.Copies.{prepare_dma_cmd-lands}

prepare_dma_cmd-lands_example :
    lands (2048 + 7) (transfers (prepare_dma_cmd 65536 1024 (5 * 1024 + 1020) 10 2048))
    ≡ some (65536 + 3)
prepare_dma_cmd-lands_example =
    prepare_dma_cmd-lands 65536 1024 (5 * 1024 + 1020) 10 2048 7 (omega arith) (omega arith)
      (omega arith) (omega arith) (omega arith) (omega arith) (omega arith)

-- ===== src/Mem/Tests.antt =====
-- Examples for kernel/mem.c: a heap at 0x80400008 of two pages and a half.
use open_agent_os.Prelude.{[], ◌∷◌, arith}
use open_agent_os.Mem.{Heap}
use open_agent_os.Mem.Blocks.{bytes, page, blocks, AreApart, blocks-AreApart}

abbrev heap : Heap
heap = record { next = 0x80400008; limit = 0x80402800 }

blocks-AreApart_example :
    AreApart 0x80400008 0x80402800 (blocks heap (bytes 100 ∷ page ∷ bytes 5000 ∷ bytes 32 ∷ []))
blocks-AreApart_example =
    blocks-AreApart heap (bytes 100 ∷ page ∷ bytes 5000 ∷ bytes 32 ∷ []) (omega arith) (omega arith)
      (omega arith, (omega arith, (omega arith, tt)))

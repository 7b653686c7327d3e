-- ===== src/Tests/FileOp.antt =====
-- A write of ten bytes that is interrupted.
use emeralddb_src.Base.{inl, inr, List, [], ◌∷◌, arith}
use emeralddb_src.FileOp.{Answer, wrote, interrupted, write, IsWritten, write-IsWritten}

abbrev answers : List Answer
answers = wrote 4 ∷ interrupted ∷ wrote 6 ∷ []

write-IsWritten_example : IsWritten answers 0 10 (write answers 0 10)
write-IsWritten_example =
    write-IsWritten answers 0 10 (omega arith) (omega arith, inr (omega arith, inl (omega arith)))

-- ===== src/Tests/MmapFile.antt =====
-- A file that is opened, mapped twice, once in vain, and closed.
use emeralddb_src.Base.{List, [], ◌∷◌}
use emeralddb_src.Core.{ok}
use emeralddb_src.Dms.Extend.{mapped, map_failed}
use emeralddb_src.MmapFile.{interrupted, opened, new_mmap_file}
use emeralddb_src.MmapFile.Regions.{Call, opens, maps, closes, calls, Accounts, calls-Accounts}

abbrev history : List Call
history =
    opens (interrupted ∷ opened 5 ∷ [])
    ∷ maps (ok, 1000) (mapped 4096) 0 100
    ∷ maps (ok, 1000) (map_failed 12) 100 100
    ∷ maps (ok, 1000) (mapped 8192) 100 100
    ∷ closes
    ∷ []

calls-Accounts_example : Accounts new_mmap_file (calls history new_mmap_file)
calls-Accounts_example = calls-Accounts history new_mmap_file

-- ===== src/HotBuffer/Open.antt =====
-- internal/hotbuffer/buffer.go: Open. The file holds the tables of an earlier run, or none; migrate
-- creates those that are missing. Whether SQLite opens the file and runs the schema is told.
use axm_sfn.Common.{Bool, not, Option, none, some, if◌then◌else◌}
use axm_sfn.HotBuffer.Tables.{Buffer, new_buffer}

pub data Opened : Type 0 where
  opened : Buffer → Opened
  open_failed migrate_failed : Opened

-- `migrate`: CREATE TABLE IF NOT EXISTS
unfoldable pub migrate : Option Buffer → Buffer
migrate none = new_buffer
migrate (some b) = b

-- `Open`
unfoldable pub open_buffer : Bool → Bool → Option Buffer → Opened
unfolding migrate
open_buffer opens migrates file =
    if not opens
    then open_failed
    else if not migrates
    then migrate_failed
    else opened (migrate file)

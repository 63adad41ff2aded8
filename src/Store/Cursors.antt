-- ===== src/Store/Cursors.antt =====
-- `Cursor` and `SetCursor`: how far each transcript has been read.
use burnmon.Base.{String, Bool, Option, none, some, string_eq, if◌then◌else◌}
use burnmon.Store.Db.{Db, CursorRow, Error, statement_failed}
use burnmon.Store.Table.{row, upsert}

abbrev pub cursor_path : CursorRow → String
cursor_path c = c.path

-- `Cursor`: `none` is its ok = false.
unfoldable pub cursor : String → Db → Option CursorRow
unfolding row
cursor p db = row cursor_path p db.cursors

abbrev pub resolve_cursor : CursorRow → CursorRow → CursorRow
resolve_cursor old new = record old { offset = new.offset; mtime = new.mtime; size = new.size }

unfoldable pub set_cursor : Bool → CursorRow → Db → Db × Option Error
unfolding upsert
set_cursor fails c db =
    if fails
    then (db, some statement_failed)
    else (record db { cursors = upsert cursor_path resolve_cursor c db.cursors }, none)

-- ===== src/Process/Reading.antt =====
-- `ParseStatus` and `ParseIo` of src/cap_process.cpp on whole files in the layout of proc(5).
use capture.Prelude.{◌≡◌, refl, List, [], ◌∷◌, some, map, All, ap, ◌∙◌}
use capture.Text.{Str, codes}
use capture.Outcome.{returns}
use capture.Os.{Os, proc_path}
use capture.Stream.Unlines.{unlines, fold, IsWhole, for_lines-unlines}
use capture.Process.{parse_file, parse_status, parse_io}
use capture.ProcessFields.{CapProcess, status_line, io_line}
use capture.Process.IoLines.{IoLine, io_text, IsIoLine, io_stated, io_told, io_line-stated}
use capture.Process.Lines.{StatusLine, status_text, IsStatusLine, stated, status_line-stated}

-- What the lines say one after the other.
abbrev pub told : List StatusLine → CapProcess → CapProcess
told [] p = p
told (l ∷ ls) p = told ls (stated l p)

fold-told :
    (ls : List StatusLine) (p : CapProcess)
    → All IsStatusLine ls
    → fold status_line p (map status_text ls) ≡ told ls p
unfolding fold
fold-told [] p h = refl
fold-told (l ∷ ls) p h = rw (status_line-stated p l h.0, fold) (fold-told ls (stated l p) h.1)

pub parse_file-unlines :
    (line : CapProcess → Str → CapProcess) (ls : List Str) (p : CapProcess)
    → All (IsWhole 1023) ls
    → parse_file (some (unlines ls)) line p ≡ returns 0 (fold line p ls)
unfolding parse_file
parse_file-unlines line ls p h = rw (for_lines-unlines line 1023 p ls h, parse_file) refl

-- On a file status of lines in the layout of proc(5), each of which fits the buffer of 1024 bytes, ParseStatus
-- ends, returns 0 and leaves in the process what the lines state one after the other: the first word of the
-- name, unless there is a name already, the resident memory, the first user and the first group; lines with
-- other keys change nothing.
pub parse_status-told :
    (os : Os) (p : CapProcess) (ls : List StatusLine)
    → os.file (proc_path p.pid (codes "status")) ≡ some (unlines (map status_text ls))
    → All IsStatusLine ls
    → All (IsWhole 1023) (map status_text ls)
    → parse_status os p ≡ returns 0 (told ls p)
unfolding parse_status
parse_status-told os p ls f h k =
    ap (λ o. parse_file o status_line p) f
    ∙ (parse_file-unlines status_line (map status_text ls) p k ∙ ap (returns 0) (fold-told ls p h))

fold-io :
    (ls : List IoLine) (p : CapProcess)
    → All IsIoLine ls
    → fold io_line p (map io_text ls) ≡ io_told ls p
unfolding fold
fold-io [] p h = refl
fold-io (l ∷ ls) p h = rw (io_line-stated p l h.0, fold) (fold-io ls (io_stated l p) h.1)

-- On a file io in the layout of proc(5), each line of which fits the buffer of 1024 bytes, ParseIo ends,
-- returns 0 and sets `ioRead` to the last number of a line rchar and `ioWrite` to that of a line wchar, and
-- nothing else.
pub parse_io-told :
    (os : Os) (p : CapProcess) (ls : List IoLine)
    → os.file (proc_path p.pid (codes "io")) ≡ some (unlines (map io_text ls))
    → All IsIoLine ls
    → All (IsWhole 1023) (map io_text ls)
    → parse_io os p ≡ returns 0 (io_told ls p)
unfolding parse_io
parse_io-told os p ls f h k =
    ap (λ o. parse_file o io_line p) f
    ∙ (parse_file-unlines io_line (map io_text ls) p k ∙ ap (returns 0) (fold-io ls p h))

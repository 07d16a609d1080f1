-- ===== src/Os.antt =====
-- The files and directories that the program reads, as a parameter: `/proc` as it stands while an
-- operation runs, and the account databases behind getpwuid(3) and getgrgid(3).
use capture.Prelude.{ℕ, ◌++◌, List, Option}
use capture.Text.{Str, codes, print_int}
use capture.Logger.{Spdlog}

pub data DirKind : Type 0 where
  dt_dir dt_lnk dt_other : DirKind

pub record DirEntry : Type 0 where
  pub d_type : DirKind
  pub d_name : Str

pub record Os : Type 0 where
  -- the contents of a file that can be opened
  pub file : Str → Option Str
  -- opendir and the entries of readdir
  pub dir : Str → Option (List DirEntry)
  -- readlink; `none` is -1
  pub target : Str → Option Str
  -- `pw_name` and `gr_name`, if there is such an entry
  pub user_name : ℕ → Option Str
  pub group_name : ℕ → Option Str
  -- the library of the logger, with the log files that it can open
  pub spdlog : Spdlog

-- sprintf(filename, "/proc/%d/<leaf>", pid)
unfoldable pub proc_path : ℕ → Str → Str
unfolding print_int
proc_path pid leaf = codes "/proc/" ++ (print_int pid ++ (codes "/" ++ leaf))

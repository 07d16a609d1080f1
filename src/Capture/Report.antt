-- ===== src/Capture/Report.antt =====
-- The part of CaptureCxx::Update that fills the array for the process callback.
pub mod Filling
use capture.Prelude.{
  ℕ, suc, ◌+◌, Bool, true, false, List, [], ◌∷◌, ◌++◌, ltb, if◌then◌else◌, length, map, set,
}
use capture.Text.{Str, strncpy}
use capture.ProcessFields.{CapProcess}
use capture.Capture.{Capture, ProcessInfo, Call, update_called}

-- The assignments to one Process_t, which is zeroed before.
unfoldable pub info_of : CapProcess → ProcessInfo
info_of p = record {
  name = strncpy p.name 127;
  cmdline = strncpy p.cmdline 511;
  user = strncpy p.user 127;
  group = strncpy p.group 127;
  pid = p.pid;
  uid = p.uid;
  gid = p.gid;
  fd_cnt = p.fd_cnt;
  memory = p.memory;
  cpu_percent = p.cpu_percent;
  mem_percent = p.mem_percent;
  io_read = p.io_read;
  io_write = p.io_write;
  recv = p.recv;
  send = p.send;
}

-- The first loop writes over entries that are there, and stops at the end of either.
pub record Filled : Type 0 where
  pub entries : List ProcessInfo
  pub todo : List (ℕ × CapProcess)

unfoldable pub overwrite : ℕ → List (ℕ × CapProcess) → List ProcessInfo → Filled
overwrite idx [] xs = record { entries = xs; todo = [] }
overwrite idx ((k, p) ∷ m) xs =
    let rest = overwrite (idx + 1) m (set xs idx (info_of p)) in
    if ltb idx (length xs) then rest else record { entries = xs; todo = (k, p) ∷ m }

-- The second loop adds an entry for each process that is left.
unfoldable pub push_all : List (ℕ × CapProcess) → List ProcessInfo → List ProcessInfo
push_all [] xs = xs
push_all ((k, p) ∷ m) xs = push_all m (xs ++ info_of p ∷ [])

unfoldable pub fill : List (ℕ × CapProcess) → List ProcessInfo → List ProcessInfo
fill m xs =
    let f = overwrite 0 m xs in
    if ltb (length f.entries) (length m) then push_all f.todo f.entries else f.entries

-- `if (processCallback != nullptr) { … }`
unfoldable pub report_processes : Capture → Capture
unfolding fill overwrite push_all info_of
report_processes s =
    if s.process_callback
    then (let xs = fill s.processes s.process_data in
        record s {
          process_data = xs;
          calls = s.calls ++ update_called xs (length s.processes) ∷ [];
        })
    else s

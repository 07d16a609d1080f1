-- ===== src/Capture.antt =====
-- src/capturecxx.h and src/export/capture_pod.h: the state of the library. The operations of
-- src/capturecxx.cpp are in the modules below.
pub mod Account
pub mod Buffer
pub mod Totals
pub mod Sync
pub mod Table
pub mod Traffic
pub mod Report
pub mod Sound
pub mod Flows
pub mod Owner
pub mod Finishing
pub mod Kept
pub mod Growth
pub mod Untouched
use capture.Prelude.{ℕ, Bool, List, Option, none, some, ◌≡◌}
use capture.Text.{Str}
use capture.Device.{CapDevice}
use capture.Handle.{CapHandle}
use capture.ProcessFields.{CapProcess, Percent}
use capture.Inode.{CapInodeHelper}
use capture.Logger.{Logger}

pub data PacketType : Type 0 where
  p_tcp p_udp : PacketType

-- Packet_t; `packet` is null or a copy of the bytes.
pub record PacketInfo : Type 0 where
  pub hash : Str
  pub family : PacketType
  pub packet : Option Str
  pub packet_size : ℕ

-- Process_t
pub record ProcessInfo : Type 0 where
  pub name : Str
  pub cmdline : Str
  pub user : Str
  pub group : Str
  pub pid : ℕ
  pub uid : ℕ
  pub gid : ℕ
  pub fd_cnt : ℕ
  pub memory : ℕ
  pub cpu_percent : Percent
  pub mem_percent : Percent
  pub io_read : ℕ
  pub io_write : ℕ
  pub recv : ℕ
  pub send : ℕ

-- A call of one of the two callbacks: the array that it can see, and the size that it is told.
pub data Call : Type 0 where
  remove_called : ℕ → Call
  update_called : List ProcessInfo → ℕ → Call
  packets_called : List PacketInfo → ℕ → Call

-- CaptureCxx, with the singletons CapInodeHelper and Logger and the calls made so far. `processes` is a std::map
-- and `pids` a std::set: both lists are in the order of the keys. A callback is null or not.
pub record Capture : Type 0 where
  pub devices : List CapDevice
  pub handles : List CapHandle
  pub pids : List ℕ
  pub processes : List (ℕ × CapProcess)
  pub process_callback : Bool
  pub packet_callback : Bool
  pub process_data : List ProcessInfo
  pub packet_data : List PacketInfo
  pub packet_idx : ℕ
  pub capture_all : Bool
  pub memory : ℕ
  pub cpu : ℕ
  pub delta_cpu : ℕ
  pub inodes : CapInodeHelper
  pub logger : Logger
  pub calls : List Call

-- ===== src/Errors.antt =====
-- src/export/capture_errors.h: the codes that the operations return. A result of type `int32_t` is
-- its 32 bit pattern.
use capture.Prelude.{ℕ, ◌^◌, ◌-◌}

abbrev pub cap_success : ℕ
cap_success = 0

abbrev pub cap_device_init : ℕ
cap_device_init = 1

abbrev pub cap_open_device : ℕ
cap_open_device = 2

abbrev pub cap_compile : ℕ
cap_compile = 3

abbrev pub cap_filter : ℕ
cap_filter = 4

abbrev pub cap_handle_init : ℕ
cap_handle_init = 5

abbrev pub cap_open_dir : ℕ
cap_open_dir = 6

abbrev pub cap_process_init : ℕ
cap_process_init = 35

abbrev pub cap_process_format : ℕ
cap_process_format = 36

abbrev pub cap_process_open : ℕ
cap_process_open = 37

abbrev pub cap_process_open_dir : ℕ
cap_process_open_dir = 38

abbrev pub cap_net_unknow : ℕ
cap_net_unknow = 41

abbrev pub cap_find_ip : ℕ
cap_find_ip = 43

abbrev pub cap_find_inode : ℕ
cap_find_inode = 44

-- -1 as an `int32_t`.
abbrev pub minus_one : ℕ
minus_one = 2 ^ 32 - 1

-- ===== src/Core/Error/Success.antt =====
-- A failure of Windows never becomes a success.
use rubidium_c.Prelude.{◌≡◌, refl, Bool, true, false}
use rubidium_c.Core.Error.{Error, ok}
use rubidium_c.Core.Error.Windows.{
  WinCode, success, file_not_found, path_not_found, bad_netpath, dev_not_exist, netname_deleted,
  bad_net_name, invalid_name, mod_not_found, bad_pathname, too_many_open_files,
  no_more_search_handles, access_denied, network_access_denied, invalid_handle, not_enough_memory,
  outofmemory, invalid_data, seek, sector_not_found, invalid_parameter, negative_seek,
  bad_arguments, invalid_flag_number, meta_expansion_too_long, invalid_signal_number,
  thread_1_inactive, invalid_ea_name, ea_list_inconsistent, invalid_drive, bad_unit, write_protect,
  crc, write_fault, read_fault, unexp_net_err, net_write_fault, open_failed, lock_failed,
  sharing_violation, lock_violation, network_busy, busy_drive, path_busy, signal_pending, busy,
  pipe_busy, sharing_buffer_exceeded, handle_disk_full, disk_full, not_supported, bad_net_resp,
  call_not_implemented, file_exists, already_exists, cannot_make, no_proc_slots, broken_pipe,
  bad_pipe, no_data, pipe_not_connected, buffer_overflow, label_too_long, filename_exced_range,
  insufficient_buffer, wait_no_children, dir_not_empty, atomic_locks_not_supported,
  invalid_exe_signature, exe_marked_invalid, bad_exe_format, iterated_data_exceeds_64k,
  invalid_minallocsize, iopl_not_enabled, invalid_segdpl, autodataseg_exceeds_64k,
  reloc_chain_xeeds_seglim, infloop_in_reloc_chain, exe_machine_type_mismatch, file_too_large,
  wait_timeout, device_support_in_progress, too_many_posts, other, from_get_last_error,
}

abbrev pub is_ok : Error → Bool
is_ok ok = true
is_ok _ = false

abbrev pub is_success : WinCode → Bool
is_success success = true
is_success _ = false

-- `rbc_error_from_get_last_error` gives OK for ERROR_SUCCESS and for no other code.
pub ok_only_on_success : (code : WinCode) → is_ok (from_get_last_error code) ≡ is_success code
unfolding from_get_last_error
ok_only_on_success success = refl
ok_only_on_success file_not_found = refl
ok_only_on_success path_not_found = refl
ok_only_on_success bad_netpath = refl
ok_only_on_success dev_not_exist = refl
ok_only_on_success netname_deleted = refl
ok_only_on_success bad_net_name = refl
ok_only_on_success invalid_name = refl
ok_only_on_success mod_not_found = refl
ok_only_on_success bad_pathname = refl
ok_only_on_success too_many_open_files = refl
ok_only_on_success no_more_search_handles = refl
ok_only_on_success access_denied = refl
ok_only_on_success network_access_denied = refl
ok_only_on_success invalid_handle = refl
ok_only_on_success not_enough_memory = refl
ok_only_on_success outofmemory = refl
ok_only_on_success invalid_data = refl
ok_only_on_success seek = refl
ok_only_on_success sector_not_found = refl
ok_only_on_success invalid_parameter = refl
ok_only_on_success negative_seek = refl
ok_only_on_success bad_arguments = refl
ok_only_on_success invalid_flag_number = refl
ok_only_on_success meta_expansion_too_long = refl
ok_only_on_success invalid_signal_number = refl
ok_only_on_success thread_1_inactive = refl
ok_only_on_success invalid_ea_name = refl
ok_only_on_success ea_list_inconsistent = refl
ok_only_on_success invalid_drive = refl
ok_only_on_success bad_unit = refl
ok_only_on_success write_protect = refl
ok_only_on_success crc = refl
ok_only_on_success write_fault = refl
ok_only_on_success read_fault = refl
ok_only_on_success unexp_net_err = refl
ok_only_on_success net_write_fault = refl
ok_only_on_success open_failed = refl
ok_only_on_success lock_failed = refl
ok_only_on_success sharing_violation = refl
ok_only_on_success lock_violation = refl
ok_only_on_success network_busy = refl
ok_only_on_success busy_drive = refl
ok_only_on_success path_busy = refl
ok_only_on_success signal_pending = refl
ok_only_on_success busy = refl
ok_only_on_success pipe_busy = refl
ok_only_on_success sharing_buffer_exceeded = refl
ok_only_on_success handle_disk_full = refl
ok_only_on_success disk_full = refl
ok_only_on_success not_supported = refl
ok_only_on_success bad_net_resp = refl
ok_only_on_success call_not_implemented = refl
ok_only_on_success file_exists = refl
ok_only_on_success already_exists = refl
ok_only_on_success cannot_make = refl
ok_only_on_success no_proc_slots = refl
ok_only_on_success broken_pipe = refl
ok_only_on_success bad_pipe = refl
ok_only_on_success no_data = refl
ok_only_on_success pipe_not_connected = refl
ok_only_on_success buffer_overflow = refl
ok_only_on_success label_too_long = refl
ok_only_on_success filename_exced_range = refl
ok_only_on_success insufficient_buffer = refl
ok_only_on_success wait_no_children = refl
ok_only_on_success dir_not_empty = refl
ok_only_on_success atomic_locks_not_supported = refl
ok_only_on_success invalid_exe_signature = refl
ok_only_on_success exe_marked_invalid = refl
ok_only_on_success bad_exe_format = refl
ok_only_on_success iterated_data_exceeds_64k = refl
ok_only_on_success invalid_minallocsize = refl
ok_only_on_success iopl_not_enabled = refl
ok_only_on_success invalid_segdpl = refl
ok_only_on_success autodataseg_exceeds_64k = refl
ok_only_on_success reloc_chain_xeeds_seglim = refl
ok_only_on_success infloop_in_reloc_chain = refl
ok_only_on_success exe_machine_type_mismatch = refl
ok_only_on_success file_too_large = refl
ok_only_on_success wait_timeout = refl
ok_only_on_success device_support_in_progress = refl
ok_only_on_success too_many_posts = refl
ok_only_on_success (other code) = refl

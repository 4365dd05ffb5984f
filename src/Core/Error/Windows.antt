-- ===== src/Core/Error/Windows.antt =====
-- The error codes of Windows that src/rbc/core/error.c translates. The constructors are the constants
-- without `ERROR_`, whose numbers are the platform's, and `other` is any further code.
use rubidium_c.Prelude.{ℕ}
use rubidium_c.Core.Error.{Error}

pub data WinCode : Type 0 where
  success file_not_found path_not_found bad_netpath dev_not_exist netname_deleted : WinCode
  bad_net_name invalid_name mod_not_found bad_pathname too_many_open_files : WinCode
  no_more_search_handles access_denied network_access_denied invalid_handle : WinCode
  not_enough_memory outofmemory invalid_data seek sector_not_found invalid_parameter : WinCode
  negative_seek bad_arguments invalid_flag_number meta_expansion_too_long : WinCode
  invalid_signal_number thread_1_inactive invalid_ea_name ea_list_inconsistent : WinCode
  invalid_drive bad_unit write_protect crc write_fault read_fault unexp_net_err : WinCode
  net_write_fault open_failed lock_failed sharing_violation lock_violation : WinCode
  network_busy busy_drive path_busy signal_pending busy pipe_busy : WinCode
  sharing_buffer_exceeded handle_disk_full disk_full not_supported bad_net_resp : WinCode
  call_not_implemented file_exists already_exists cannot_make no_proc_slots : WinCode
  broken_pipe bad_pipe no_data pipe_not_connected buffer_overflow label_too_long : WinCode
  filename_exced_range insufficient_buffer wait_no_children dir_not_empty : WinCode
  atomic_locks_not_supported invalid_exe_signature exe_marked_invalid bad_exe_format : WinCode
  iterated_data_exceeds_64k invalid_minallocsize iopl_not_enabled invalid_segdpl : WinCode
  autodataseg_exceeds_64k reloc_chain_xeeds_seglim infloop_in_reloc_chain : WinCode
  exe_machine_type_mismatch file_too_large wait_timeout device_support_in_progress : WinCode
  too_many_posts : WinCode
  other : ℕ → WinCode

unfoldable pub from_get_last_error : WinCode → Error
from_get_last_error success = Error.ok
from_get_last_error file_not_found = Error.no_such_file_or_directory
from_get_last_error path_not_found = Error.no_such_file_or_directory
from_get_last_error bad_netpath = Error.no_such_file_or_directory
from_get_last_error dev_not_exist = Error.no_such_file_or_directory
from_get_last_error netname_deleted = Error.no_such_file_or_directory
from_get_last_error bad_net_name = Error.no_such_file_or_directory
from_get_last_error invalid_name = Error.no_such_file_or_directory
from_get_last_error mod_not_found = Error.no_such_file_or_directory
from_get_last_error bad_pathname = Error.no_such_file_or_directory
from_get_last_error too_many_open_files = Error.too_many_files_open_in_system
from_get_last_error no_more_search_handles = Error.too_many_files_open_in_system
from_get_last_error access_denied = Error.permission_denied
from_get_last_error network_access_denied = Error.permission_denied
from_get_last_error invalid_handle = Error.bad_file_descriptor
from_get_last_error not_enough_memory = Error.not_enough_memory
from_get_last_error outofmemory = Error.not_enough_memory
from_get_last_error invalid_data = Error.invalid_argument
from_get_last_error seek = Error.invalid_argument
from_get_last_error sector_not_found = Error.invalid_argument
from_get_last_error invalid_parameter = Error.invalid_argument
from_get_last_error negative_seek = Error.invalid_argument
from_get_last_error bad_arguments = Error.invalid_argument
from_get_last_error invalid_flag_number = Error.invalid_argument
from_get_last_error meta_expansion_too_long = Error.invalid_argument
from_get_last_error invalid_signal_number = Error.invalid_argument
from_get_last_error thread_1_inactive = Error.invalid_argument
from_get_last_error invalid_ea_name = Error.invalid_argument
from_get_last_error ea_list_inconsistent = Error.invalid_argument
from_get_last_error invalid_drive = Error.no_such_device
from_get_last_error bad_unit = Error.no_such_device
from_get_last_error write_protect = Error.read_only_file_system
from_get_last_error crc = Error.io_error
from_get_last_error write_fault = Error.io_error
from_get_last_error read_fault = Error.io_error
from_get_last_error unexp_net_err = Error.io_error
from_get_last_error net_write_fault = Error.io_error
from_get_last_error open_failed = Error.io_error
from_get_last_error lock_failed = Error.io_error
from_get_last_error sharing_violation = Error.device_or_resource_busy
from_get_last_error lock_violation = Error.device_or_resource_busy
from_get_last_error network_busy = Error.device_or_resource_busy
from_get_last_error busy_drive = Error.device_or_resource_busy
from_get_last_error path_busy = Error.device_or_resource_busy
from_get_last_error signal_pending = Error.device_or_resource_busy
from_get_last_error busy = Error.device_or_resource_busy
from_get_last_error pipe_busy = Error.device_or_resource_busy
from_get_last_error sharing_buffer_exceeded = Error.no_lock_available
from_get_last_error handle_disk_full = Error.no_space_on_device
from_get_last_error disk_full = Error.no_space_on_device
from_get_last_error not_supported = Error.function_not_supported
from_get_last_error bad_net_resp = Error.function_not_supported
from_get_last_error call_not_implemented = Error.function_not_supported
from_get_last_error file_exists = Error.file_exists
from_get_last_error already_exists = Error.file_exists
from_get_last_error cannot_make = Error.operation_not_permitted
from_get_last_error no_proc_slots = Error.resource_unavailable_try_again
from_get_last_error broken_pipe = Error.broken_pipe
from_get_last_error bad_pipe = Error.broken_pipe
from_get_last_error no_data = Error.broken_pipe
from_get_last_error pipe_not_connected = Error.broken_pipe
from_get_last_error buffer_overflow = Error.filename_too_long
from_get_last_error label_too_long = Error.filename_too_long
from_get_last_error filename_exced_range = Error.filename_too_long
from_get_last_error insufficient_buffer = Error.no_buffer_space
from_get_last_error wait_no_children = Error.no_child_process
from_get_last_error dir_not_empty = Error.directory_not_empty
from_get_last_error atomic_locks_not_supported = Error.not_supported
from_get_last_error invalid_exe_signature = Error.executable_format_error
from_get_last_error exe_marked_invalid = Error.executable_format_error
from_get_last_error bad_exe_format = Error.executable_format_error
from_get_last_error iterated_data_exceeds_64k = Error.executable_format_error
from_get_last_error invalid_minallocsize = Error.executable_format_error
from_get_last_error iopl_not_enabled = Error.executable_format_error
from_get_last_error invalid_segdpl = Error.executable_format_error
from_get_last_error autodataseg_exceeds_64k = Error.executable_format_error
from_get_last_error reloc_chain_xeeds_seglim = Error.executable_format_error
from_get_last_error infloop_in_reloc_chain = Error.executable_format_error
from_get_last_error exe_machine_type_mismatch = Error.executable_format_error
from_get_last_error file_too_large = Error.file_too_large
from_get_last_error wait_timeout = Error.timed_out
from_get_last_error device_support_in_progress = Error.operation_in_progress
from_get_last_error too_many_posts = Error.value_too_large
from_get_last_error (other code) = Error.unknown

-- ===== src/Core/Error/Table.antt =====
-- The messages of `rbc_error_to_string` in src/rbc/core/error.c, one for each error code.
use Prim.Native.String.{String}
use rubidium_c.Prelude.{List, [], ◌∷◌}
use rubidium_c.Core.Error.{
  Error, unknown, not_implemented, ok, address_family_not_supported, address_in_use,
  address_not_available, already_connected, argument_list_too_long, argument_out_of_domain,
  bad_address, bad_file_descriptor, bad_message, broken_pipe, connection_aborted,
  connection_already_in_progress, connection_refused, connection_reset, cross_device_link,
  destination_address_required, device_or_resource_busy, directory_not_empty,
  executable_format_error, file_exists, file_too_large, filename_too_long, function_not_supported,
  host_unreachable, identifier_removed, illegal_byte_sequence, inappropriate_io_control_operation,
  interrupted, invalid_argument, invalid_seek, io_error, is_a_directory, message_size, network_down,
  network_reset, network_unreachable, no_buffer_space, no_child_process, no_link, no_lock_available,
  no_message, no_protocol_option, no_space_on_device, no_such_device_or_address, no_such_device,
  no_such_file_or_directory, no_such_process, not_a_directory, not_a_socket, not_connected,
  not_enough_memory, operation_canceled, operation_in_progress, operation_not_permitted,
  operation_not_supported, operation_would_block, owner_dead, permission_denied, protocol_error,
  protocol_not_supported, read_only_file_system, resource_deadlock_would_occur, result_out_of_range,
  state_not_recoverable, text_file_busy, timed_out, too_many_files_open_in_system,
  too_many_files_open, too_many_links, too_many_symbolic_link_levels, value_too_large,
  wrong_protocol_type, not_supported, resource_unavailable_try_again,
}

abbrev pub message : Error → String
message not_supported = "Operation not supported"
message resource_unavailable_try_again = "Resource unavailable, try again"
message unknown = "Unknown error"
message not_implemented = "Not implemented"
message ok = "Ok"
message address_family_not_supported = "Address family not supported"
message address_in_use = "Address in use"
message address_not_available = "Address not available"
message already_connected = "Socket is connected"
message argument_list_too_long = "Argument list too long"
message argument_out_of_domain = "Mathematics argument out of domain of function"
message bad_address = "Bad address"
message bad_file_descriptor = "Bad file descriptor"
message bad_message = "Bad message"
message broken_pipe = "Broken pipe"
message connection_aborted = "Connection aborted"
message connection_already_in_progress = "Connection already in progress"
message connection_refused = "Connection refused"
message connection_reset = "Connection reset"
message cross_device_link = "Improper link"
message destination_address_required = "Destination address required"
message device_or_resource_busy = "Device or resource busy"
message directory_not_empty = "Directory not empty"
message executable_format_error = "Executable file format error"
message file_exists = "File exists"
message file_too_large = "File too large"
message filename_too_long = "Filename too long"
message function_not_supported = "Function not supported"
message host_unreachable = "Host is unreachable"
message identifier_removed = "Identifier removed"
message illegal_byte_sequence = "Illegal byte sequence"
message inappropriate_io_control_operation = "Inappropriate I/O control operation"
message interrupted = "Interrupted function call"
message invalid_argument = "Invalid argument"
message invalid_seek = "Invalid seek"
message io_error = "Input/output error"
message is_a_directory = "Is a directory"
message message_size = "Message too long"
message network_down = "Network is down"
message network_reset = "Connection aborted by network"
message network_unreachable = "Network unreachable"
message no_buffer_space = "No buffer space available"
message no_child_process = "No child processes"
message no_link = "Link has been severed"
message no_lock_available = "No locks available"
message no_message = "No message of the desired type"
message no_protocol_option = "Protocol not available"
message no_space_on_device = "No space left on device"
message no_such_device_or_address = "No such device or address"
message no_such_device = "No such device"
message no_such_file_or_directory = "No such file or directory"
message no_such_process = "No such process"
message not_a_directory = "Not a directory"
message not_a_socket = "Not a socket"
message not_connected = "The socket is not connected"
message not_enough_memory = "Not enough space"
message operation_canceled = "Operation canceled"
message operation_in_progress = "Operation in progress"
message operation_not_permitted = "Operation not permitted"
message operation_not_supported = "Operation not supported on socket"
message operation_would_block = "Operation would block"
message owner_dead = "Owner died"
message permission_denied = "Permission denied"
message protocol_error = "Protocol error"
message protocol_not_supported = "Protocol not supported"
message read_only_file_system = "Read-only filesystem"
message resource_deadlock_would_occur = "Resource deadlock would occur"
message result_out_of_range = "Result too large"
message state_not_recoverable = "State not recoverable"
message text_file_busy = "Text file busy"
message timed_out = "Connection timed out"
message too_many_files_open_in_system = "Too many open files in system"
message too_many_files_open = "Too many open files"
message too_many_links = "Too many links"
message too_many_symbolic_link_levels = "Too many levels of symbolic links"
message value_too_large = "Value too large to be stored in data type"
message wrong_protocol_type = "Protocol wrong type for socket"

-- The cases of the switch, in order.
abbrev pub cases : List Error
cases =
    unknown ∷ not_implemented ∷ ok ∷ address_family_not_supported ∷ address_in_use
    ∷ address_not_available ∷ already_connected ∷ argument_list_too_long ∷ argument_out_of_domain
    ∷ bad_address ∷ bad_file_descriptor ∷ bad_message ∷ broken_pipe ∷ connection_aborted
    ∷ connection_already_in_progress ∷ connection_refused ∷ connection_reset ∷ cross_device_link
    ∷ destination_address_required ∷ device_or_resource_busy ∷ directory_not_empty
    ∷ executable_format_error ∷ file_exists ∷ file_too_large ∷ filename_too_long
    ∷ function_not_supported ∷ host_unreachable ∷ identifier_removed ∷ illegal_byte_sequence
    ∷ inappropriate_io_control_operation ∷ interrupted ∷ invalid_argument ∷ invalid_seek ∷ io_error
    ∷ is_a_directory ∷ message_size ∷ network_down ∷ network_reset ∷ network_unreachable
    ∷ no_buffer_space ∷ no_child_process ∷ no_link ∷ no_lock_available ∷ no_message
    ∷ no_protocol_option ∷ no_space_on_device ∷ no_such_device_or_address ∷ no_such_device
    ∷ no_such_file_or_directory ∷ no_such_process ∷ not_a_directory ∷ not_a_socket ∷ not_connected
    ∷ not_enough_memory ∷ operation_canceled ∷ operation_in_progress ∷ operation_not_permitted
    ∷ operation_not_supported ∷ operation_would_block ∷ owner_dead ∷ permission_denied
    ∷ protocol_error ∷ protocol_not_supported ∷ read_only_file_system
    ∷ resource_deadlock_would_occur ∷ result_out_of_range ∷ state_not_recoverable ∷ text_file_busy
    ∷ timed_out ∷ too_many_files_open_in_system ∷ too_many_files_open ∷ too_many_links
    ∷ too_many_symbolic_link_levels ∷ value_too_large ∷ wrong_protocol_type ∷ []

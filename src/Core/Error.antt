-- ===== src/Core/Error.antt =====
-- src/rbc/core/error.h: the error codes. The numbers behind the POSIX names are the platform's.
pub mod Windows
pub mod Success
pub mod Table
pub mod Position
pub mod Numbers
pub mod Message

pub data Error : Type 0 where
  ok unknown not_implemented address_family_not_supported address_in_use : Error
  address_not_available already_connected argument_list_too_long argument_out_of_domain : Error
  bad_address bad_file_descriptor bad_message broken_pipe connection_aborted : Error
  connection_already_in_progress connection_refused connection_reset cross_device_link : Error
  destination_address_required device_or_resource_busy directory_not_empty : Error
  executable_format_error file_exists file_too_large filename_too_long : Error
  function_not_supported host_unreachable identifier_removed illegal_byte_sequence : Error
  inappropriate_io_control_operation interrupted invalid_argument invalid_seek io_error : Error
  is_a_directory message_size network_down network_reset network_unreachable no_buffer_space : Error
  no_child_process no_link no_lock_available no_message no_protocol_option : Error
  no_space_on_device no_such_device_or_address no_such_device no_such_file_or_directory : Error
  no_such_process not_a_directory not_a_socket not_connected not_enough_memory not_supported : Error
  operation_canceled operation_in_progress operation_not_permitted operation_not_supported : Error
  operation_would_block owner_dead permission_denied protocol_error protocol_not_supported : Error
  read_only_file_system resource_deadlock_would_occur resource_unavailable_try_again : Error
  result_out_of_range state_not_recoverable text_file_busy timed_out : Error
  too_many_files_open_in_system too_many_files_open too_many_links : Error
  too_many_symbolic_link_levels value_too_large wrong_protocol_type : Error

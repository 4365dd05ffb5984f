-- ===== src/Core/Error/Position.antt =====
-- Every error code but the two tested before it has a case in the switch of src/rbc/core/error.c.
use rubidium_c.Prelude.{ℕ, ◌≡◌, refl, ◌⊎◌, inl, inr, some, get_elem?}
use rubidium_c.Core.Error.{
  Error, unknown, not_implemented, ok, address_family_not_supported, address_in_use,
  address_not_available, already_connected, argument_list_too_long, argument_out_of_domain,
  bad_address, bad_file_descriptor, bad_message, broken_pipe, connection_aborted,
  connection_already_in_progress, connection_refused, connection_reset, cross_device_link,
  destination_address_required, device_or_resource_busy, directory_not_empty,
  executable_format_error, file_exists, file_too_large, filename_too_long, function_not_supported,
  host_unreachable, identifier_removed, illegal_byte_sequence, inappropriate_io_control_operation,
  interrupted, invalid_argument, invalid_seek, io_error, is_a_directory, message_size, network_down,
  network_reset, network_unreachable, no_buffer_space, no_child_process, no_link, no_lock_available,
  no_message, no_protocol_option, no_space_on_device, no_such_device_or_address, no_such_device,
  no_such_file_or_directory, no_such_process, not_a_directory, not_a_socket, not_connected,
  not_enough_memory, operation_canceled, operation_in_progress, operation_not_permitted,
  operation_not_supported, operation_would_block, owner_dead, permission_denied, protocol_error,
  protocol_not_supported, read_only_file_system, resource_deadlock_would_occur, result_out_of_range,
  state_not_recoverable, text_file_busy, timed_out, too_many_files_open_in_system,
  too_many_files_open, too_many_links, too_many_symbolic_link_levels, value_too_large,
  wrong_protocol_type, not_supported, resource_unavailable_try_again,
}
use rubidium_c.Core.Error.Table.{cases}

pub has_case :
    (e : Error)
    → (e ≡ Error.not_supported)
      ⊎ ((e ≡ Error.resource_unavailable_try_again) ⊎ ((i : ℕ) × (get_elem? cases i ≡ some e)))
has_case not_supported = inl refl
has_case resource_unavailable_try_again = inr (inl refl)
has_case unknown = inr (inr (0, refl))
has_case not_implemented = inr (inr (1, refl))
has_case ok = inr (inr (2, refl))
has_case address_family_not_supported = inr (inr (3, refl))
has_case address_in_use = inr (inr (4, refl))
has_case address_not_available = inr (inr (5, refl))
has_case already_connected = inr (inr (6, refl))
has_case argument_list_too_long = inr (inr (7, refl))
has_case argument_out_of_domain = inr (inr (8, refl))
has_case bad_address = inr (inr (9, refl))
has_case bad_file_descriptor = inr (inr (10, refl))
has_case bad_message = inr (inr (11, refl))
has_case broken_pipe = inr (inr (12, refl))
has_case connection_aborted = inr (inr (13, refl))
has_case connection_already_in_progress = inr (inr (14, refl))
has_case connection_refused = inr (inr (15, refl))
has_case connection_reset = inr (inr (16, refl))
has_case cross_device_link = inr (inr (17, refl))
has_case destination_address_required = inr (inr (18, refl))
has_case device_or_resource_busy = inr (inr (19, refl))
has_case directory_not_empty = inr (inr (20, refl))
has_case executable_format_error = inr (inr (21, refl))
has_case file_exists = inr (inr (22, refl))
has_case file_too_large = inr (inr (23, refl))
has_case filename_too_long = inr (inr (24, refl))
has_case function_not_supported = inr (inr (25, refl))
has_case host_unreachable = inr (inr (26, refl))
has_case identifier_removed = inr (inr (27, refl))
has_case illegal_byte_sequence = inr (inr (28, refl))
has_case inappropriate_io_control_operation = inr (inr (29, refl))
has_case interrupted = inr (inr (30, refl))
has_case invalid_argument = inr (inr (31, refl))
has_case invalid_seek = inr (inr (32, refl))
has_case io_error = inr (inr (33, refl))
has_case is_a_directory = inr (inr (34, refl))
has_case message_size = inr (inr (35, refl))
has_case network_down = inr (inr (36, refl))
has_case network_reset = inr (inr (37, refl))
has_case network_unreachable = inr (inr (38, refl))
has_case no_buffer_space = inr (inr (39, refl))
has_case no_child_process = inr (inr (40, refl))
has_case no_link = inr (inr (41, refl))
has_case no_lock_available = inr (inr (42, refl))
has_case no_message = inr (inr (43, refl))
has_case no_protocol_option = inr (inr (44, refl))
has_case no_space_on_device = inr (inr (45, refl))
has_case no_such_device_or_address = inr (inr (46, refl))
has_case no_such_device = inr (inr (47, refl))
has_case no_such_file_or_directory = inr (inr (48, refl))
has_case no_such_process = inr (inr (49, refl))
has_case not_a_directory = inr (inr (50, refl))
has_case not_a_socket = inr (inr (51, refl))
has_case not_connected = inr (inr (52, refl))
has_case not_enough_memory = inr (inr (53, refl))
has_case operation_canceled = inr (inr (54, refl))
has_case operation_in_progress = inr (inr (55, refl))
has_case operation_not_permitted = inr (inr (56, refl))
has_case operation_not_supported = inr (inr (57, refl))
has_case operation_would_block = inr (inr (58, refl))
has_case owner_dead = inr (inr (59, refl))
has_case permission_denied = inr (inr (60, refl))
has_case protocol_error = inr (inr (61, refl))
has_case protocol_not_supported = inr (inr (62, refl))
has_case read_only_file_system = inr (inr (63, refl))
has_case resource_deadlock_would_occur = inr (inr (64, refl))
has_case result_out_of_range = inr (inr (65, refl))
has_case state_not_recoverable = inr (inr (66, refl))
has_case text_file_busy = inr (inr (67, refl))
has_case timed_out = inr (inr (68, refl))
has_case too_many_files_open_in_system = inr (inr (69, refl))
has_case too_many_files_open = inr (inr (70, refl))
has_case too_many_links = inr (inr (71, refl))
has_case too_many_symbolic_link_levels = inr (inr (72, refl))
has_case value_too_large = inr (inr (73, refl))
has_case wrong_protocol_type = inr (inr (74, refl))

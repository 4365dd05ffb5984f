-- ===== src/Core/Error/Numbers.antt =====
-- A numbering of the error codes, for the concrete runs: each has the position of its case.
use rubidium_c.Prelude.{
  ℕ, ◌≡◌, refl, sym, ap, ◌∙◌, some, some-injective, List, [], ◌∷◌, ◌++◌, get_elem?,
}
use rubidium_c.Prelude.Int.{ℤ, pos, pos_part}
use rubidium_c.Core.Error.{
  Error, unknown, not_implemented, ok, address_family_not_supported, address_in_use,
  address_not_available, already_connected, argument_list_too_long, argument_out_of_domain,
  bad_address, bad_file_descriptor, bad_message, broken_pipe, connection_aborted,
  connection_already_in_progress, connection_refused, connection_reset, cross_device_link,
  destination_address_required, device_or_resource_busy, directory_not_empty,
  executable_format_error, file_exists, file_too_large, filename_too_long, function_not_supported,
  host_unreachable, identifier_removed, illegal_byte_sequence, inappropriate_io_control_operation,
  interrupted, invalid_argument, invalid_seek, io_error, is_a_directory, message_size, network_down,
  network_reset, network_unreachable, no_buffer_space, no_child_process, no_link, no_lock_available,
  no_message, no_protocol_option, no_space_on_device, no_such_device_or_address, no_such_device,
  no_such_file_or_directory, no_such_process, not_a_directory, not_a_socket, not_connected,
  not_enough_memory, operation_canceled, operation_in_progress, operation_not_permitted,
  operation_not_supported, operation_would_block, owner_dead, permission_denied, protocol_error,
  protocol_not_supported, read_only_file_system, resource_deadlock_would_occur, result_out_of_range,
  state_not_recoverable, text_file_busy, timed_out, too_many_files_open_in_system,
  too_many_files_open, too_many_links, too_many_symbolic_link_levels, value_too_large,
  wrong_protocol_type, not_supported, resource_unavailable_try_again,
}
use rubidium_c.Core.Error.Table.{cases}

abbrev all : List Error
all = cases ++ not_supported ∷ resource_unavailable_try_again ∷ []

abbrev position : Error → ℕ
position unknown = 0
position not_implemented = 1
position ok = 2
position address_family_not_supported = 3
position address_in_use = 4
position address_not_available = 5
position already_connected = 6
position argument_list_too_long = 7
position argument_out_of_domain = 8
position bad_address = 9
position bad_file_descriptor = 10
position bad_message = 11
position broken_pipe = 12
position connection_aborted = 13
position connection_already_in_progress = 14
position connection_refused = 15
position connection_reset = 16
position cross_device_link = 17
position destination_address_required = 18
position device_or_resource_busy = 19
position directory_not_empty = 20
position executable_format_error = 21
position file_exists = 22
position file_too_large = 23
position filename_too_long = 24
position function_not_supported = 25
position host_unreachable = 26
position identifier_removed = 27
position illegal_byte_sequence = 28
position inappropriate_io_control_operation = 29
position interrupted = 30
position invalid_argument = 31
position invalid_seek = 32
position io_error = 33
position is_a_directory = 34
position message_size = 35
position network_down = 36
position network_reset = 37
position network_unreachable = 38
position no_buffer_space = 39
position no_child_process = 40
position no_link = 41
position no_lock_available = 42
position no_message = 43
position no_protocol_option = 44
position no_space_on_device = 45
position no_such_device_or_address = 46
position no_such_device = 47
position no_such_file_or_directory = 48
position no_such_process = 49
position not_a_directory = 50
position not_a_socket = 51
position not_connected = 52
position not_enough_memory = 53
position operation_canceled = 54
position operation_in_progress = 55
position operation_not_permitted = 56
position operation_not_supported = 57
position operation_would_block = 58
position owner_dead = 59
position permission_denied = 60
position protocol_error = 61
position protocol_not_supported = 62
position read_only_file_system = 63
position resource_deadlock_would_occur = 64
position result_out_of_range = 65
position state_not_recoverable = 66
position text_file_busy = 67
position timed_out = 68
position too_many_files_open_in_system = 69
position too_many_files_open = 70
position too_many_links = 71
position too_many_symbolic_link_levels = 72
position value_too_large = 73
position wrong_protocol_type = 74
position not_supported = 75
position resource_unavailable_try_again = 76

abbrev pub number : Error → ℤ
number e = pos (position e)

number_at : (e : Error) → get_elem? all (position e) ≡ some e
number_at unknown = refl
number_at not_implemented = refl
number_at ok = refl
number_at address_family_not_supported = refl
number_at address_in_use = refl
number_at address_not_available = refl
number_at already_connected = refl
number_at argument_list_too_long = refl
number_at argument_out_of_domain = refl
number_at bad_address = refl
number_at bad_file_descriptor = refl
number_at bad_message = refl
number_at broken_pipe = refl
number_at connection_aborted = refl
number_at connection_already_in_progress = refl
number_at connection_refused = refl
number_at connection_reset = refl
number_at cross_device_link = refl
number_at destination_address_required = refl
number_at device_or_resource_busy = refl
number_at directory_not_empty = refl
number_at executable_format_error = refl
number_at file_exists = refl
number_at file_too_large = refl
number_at filename_too_long = refl
number_at function_not_supported = refl
number_at host_unreachable = refl
number_at identifier_removed = refl
number_at illegal_byte_sequence = refl
number_at inappropriate_io_control_operation = refl
number_at interrupted = refl
number_at invalid_argument = refl
number_at invalid_seek = refl
number_at io_error = refl
number_at is_a_directory = refl
number_at message_size = refl
number_at network_down = refl
number_at network_reset = refl
number_at network_unreachable = refl
number_at no_buffer_space = refl
number_at no_child_process = refl
number_at no_link = refl
number_at no_lock_available = refl
number_at no_message = refl
number_at no_protocol_option = refl
number_at no_space_on_device = refl
number_at no_such_device_or_address = refl
number_at no_such_device = refl
number_at no_such_file_or_directory = refl
number_at no_such_process = refl
number_at not_a_directory = refl
number_at not_a_socket = refl
number_at not_connected = refl
number_at not_enough_memory = refl
number_at operation_canceled = refl
number_at operation_in_progress = refl
number_at operation_not_permitted = refl
number_at operation_not_supported = refl
number_at operation_would_block = refl
number_at owner_dead = refl
number_at permission_denied = refl
number_at protocol_error = refl
number_at protocol_not_supported = refl
number_at read_only_file_system = refl
number_at resource_deadlock_would_occur = refl
number_at result_out_of_range = refl
number_at state_not_recoverable = refl
number_at text_file_busy = refl
number_at timed_out = refl
number_at too_many_files_open_in_system = refl
number_at too_many_files_open = refl
number_at too_many_links = refl
number_at too_many_symbolic_link_levels = refl
number_at value_too_large = refl
number_at wrong_protocol_type = refl
number_at not_supported = refl
number_at resource_unavailable_try_again = refl

pub number-injective : (d e : Error) → number d ≡ number e → d ≡ e
number-injective d e same =
    some-injective (sym (number_at d) ∙ ap (λ n. get_elem? all (pos_part n)) same ∙ number_at e)

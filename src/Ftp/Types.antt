-- ===== src/Ftp/Types.antt =====
-- netfiles/src/ftp/ftp_types.hpp: response codes and the state of a session.
use net_files.Base.{ℕ, Bool, Bytes}

-- Enumerators of one number are one constructor: `ServiceClosingControl` is also
-- `ServiceNotAvailable`, `FileActionPending` is also `NeedMoreInfo`.
pub data ResponseCode : Type 0 where
  data_connection_open service_ready enter_pasvive_mode file_status_okay : ResponseCode
  directory_status_okay help_message name_system_type command_okay : ResponseCode
  file_action_completed logged_in cwd_pub directory_created file_action_pending : ResponseCode
  need_password need_account service_closing_control data_connection_closed : ResponseCode
  file_action_not_taken action_aborted syntax_error parameter_syntax_error : ResponseCode
  command_not_implemented bad_sequence parameter_not_implemented not_logged_in : ResponseCode
  need_account_for_storing file_unavailable page_type_unknown : ResponseCode
  exceeded_storage_allocation file_name_not_allowed : ResponseCode

unfoldable pub to_int : ResponseCode → ℕ
to_int data_connection_open = 150
to_int service_ready = 220
to_int enter_pasvive_mode = 227
to_int file_status_okay = 213
to_int directory_status_okay = 212
to_int help_message = 211
to_int name_system_type = 215
to_int command_okay = 200
to_int file_action_completed = 226
to_int logged_in = 230
to_int cwd_pub = 250
to_int directory_created = 257
to_int file_action_pending = 350
to_int need_password = 331
to_int need_account = 332
to_int service_closing_control = 421
to_int data_connection_closed = 426
to_int file_action_not_taken = 450
to_int action_aborted = 451
to_int syntax_error = 500
to_int parameter_syntax_error = 501
to_int command_not_implemented = 502
to_int bad_sequence = 503
to_int parameter_not_implemented = 504
to_int not_logged_in = 530
to_int need_account_for_storing = 532
to_int file_unavailable = 550
to_int page_type_unknown = 551
to_int exceeded_storage_allocation = 552
to_int file_name_not_allowed = 553

pub data TransferMode : Type 0 where
  ascii image local : TransferMode

pub data DataConnectionType : Type 0 where
  active passive : DataConnectionType

pub data UserPermission : Type 0 where
  none_granted read write admin : UserPermission

-- `FTPSessionState`; paths are their texts.
pub record SessionState : Type 0 where
  pub username : Bytes
  pub authenticated : Bool
  pub permission : UserPermission
  pub current_directory : Bytes
  pub root_directory : Bytes
  pub transfer_mode : TransferMode
  pub representation_type : Bytes
  pub data_conn_type : DataConnectionType
  pub data_conn_port : ℕ
  pub data_conn_host : Bytes
  pub rename_from_path : Bytes
  pub login_time : ℕ
  pub bytes_transferred : ℕ

-- A reply on the control channel: its code and its text.
abbrev pub Reply : Type 0
Reply = ResponseCode × Bytes

-- ===== src/Protocol/ErrorCodes.antt =====
-- src/error_codes.rs: the server's structured error codes.
pub data ErrorCode : Type 0 where
  unauthorized invalid_token authentication_required invalid_app_id app_id_expired : ErrorCode
  app_id_revoked app_id_suspended missing_app_id authentication_timeout : ErrorCode
  sdk_version_unsupported unsupported_game_data_format : ErrorCode
  invalid_input invalid_game_name invalid_room_code invalid_player_name : ErrorCode
  invalid_max_players message_too_large : ErrorCode
  room_not_found room_full already_in_room not_in_room room_creation_failed : ErrorCode
  max_rooms_per_game_exceeded invalid_room_state : ErrorCode
  authority_not_supported authority_conflict authority_denied : ErrorCode
  rate_limit_exceeded too_many_connections : ErrorCode
  reconnection_failed reconnection_token_invalid reconnection_expired : ErrorCode
  player_already_connected : ErrorCode
  spectator_not_allowed too_many_spectators not_a_spectator spectator_join_failed : ErrorCode
  internal_error storage_error service_unavailable : ErrorCode
  game_start_not_ready game_start_forbidden : ErrorCode
  cross_room_signal unsupported_transport signal_target_not_found : ErrorCode
  signal_rate_limited signal_too_large : ErrorCode
  connection_idle_timeout : ErrorCode
  slow_consumer activity_timeout server_draining invalid_delivery_class : ErrorCode

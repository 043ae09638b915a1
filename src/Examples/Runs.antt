-- ===== src/Examples/Runs.antt =====
-- The account operations run to a success in memory, so that the theorems on them do not speak of
-- failures only.
use clean_arch_go_gin.Base.{◌≡◌, refl, Bool, true, false}
use clean_arch_go_gin.Base.Effect.{Result, ok, err, continue, rename}
use clean_arch_go_gin.Apperr.{is_record_not_found}
use clean_arch_go_gin.Outside.Memory.{in_memory}
use clean_arch_go_gin.Repository.Context.{select_done}
use clean_arch_go_gin.Repository.User
use clean_arch_go_gin.Repository.RefreshToken
use clean_arch_go_gin.Repository.Tx.{within_tx}
use clean_arch_go_gin.Service.Token.{
  hex_encode, hash, generate_access_token, generate_refresh_token, validate_refresh_token,
}
use clean_arch_go_gin.Service.User.Tokens.{store_refresh_token, revoke_refresh_tokens, issue_tokens}
use clean_arch_go_gin.Service.User.Credentials.{
  register, register_new, create_account, login, login_as,
}
use clean_arch_go_gin.Service.User.Session.{refresh, check_stored, exchange, rotate}
use clean_arch_go_gin.Service.User.Account.{
  change_password, change_verified, replace_password, delete_account, remove_account,
}
use clean_arch_go_gin.Examples.Data.{service, outside_tx, world, new_account, credentials, change}

abbrev succeeds : {E A W : Type 0} → Result E A × W → Bool
succeeds (ok _, _) = true
succeeds (err _, _) = false

succeeds-delete_account : succeeds (delete_account in_memory service 7 outside_tx world) ≡ true
unfolding continue rename is_record_not_found select_done within_tx User.find_by_id User.delete
    RefreshToken.delete_by_user_id revoke_refresh_tokens delete_account remove_account
succeeds-delete_account = refl

succeeds-register : succeeds (register in_memory service new_account outside_tx world) ≡ true
unfolding continue rename is_record_not_found select_done within_tx User.find_by_email User.create
    RefreshToken.create hex_encode hash generate_access_token generate_refresh_token
    store_refresh_token issue_tokens create_account register_new register
succeeds-register = refl

succeeds-login : succeeds (login in_memory service credentials outside_tx world) ≡ true
unfolding continue rename is_record_not_found select_done User.find_by_email RefreshToken.create
    hex_encode hash generate_access_token generate_refresh_token store_refresh_token issue_tokens
    login_as login
succeeds-login = refl

succeeds-refresh : succeeds (refresh in_memory service "t" outside_tx world) ≡ true
unfolding continue rename is_record_not_found select_done within_tx RefreshToken.find_by_token_hash
    RefreshToken.delete_by_token_hash RefreshToken.create hex_encode hash generate_access_token
    generate_refresh_token validate_refresh_token store_refresh_token issue_tokens rotate exchange
    check_stored refresh
succeeds-refresh = refl

succeeds-change_password :
    succeeds (change_password in_memory service 7 change outside_tx world) ≡ true
unfolding continue rename is_record_not_found select_done within_tx User.find_by_id User.update
    RefreshToken.delete_by_user_id RefreshToken.create hex_encode hash generate_access_token
    generate_refresh_token store_refresh_token revoke_refresh_tokens issue_tokens replace_password
    change_verified change_password
succeeds-change_password = refl

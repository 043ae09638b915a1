-- ===== src/Examples/Data.antt =====
-- A small database in memory: one live user, one soft-deleted user, two sessions of the first and one
-- of a third; and the requests of the examples.
use clean_arch_go_gin.Base.{none, some, [], ◌∷◌}
use clean_arch_go_gin.Base.Int.{pos}
use clean_arch_go_gin.Entity.{UserEntity, RefreshTokenEntity}
use clean_arch_go_gin.Database.{Tables}
use clean_arch_go_gin.Outside.Memory.{Memory, hash_of}
use clean_arch_go_gin.Repository.Context.{Context}
use clean_arch_go_gin.Request.{RegisterUserRequest, LoginRequest, ChangePasswordRequest, Pagination}
use clean_arch_go_gin.Service.Token.Claims.{TokenClaims}
use clean_arch_go_gin.Service.User.Tokens.{UserService}

abbrev pub service : UserService
service = record {
  token_service = record {
    access_token_secret = "access";
    access_token_expiry = pos 900;
    refresh_token_secret = "refresh";
    refresh_token_expiry = pos 604800;
  };
  refresh_token_ttl = pos 604800;
}

abbrev pub outside_tx : Context
outside_tx = record { transaction = none }

abbrev pub alice : UserEntity
alice = record {
  id = 7;
  email = "alice@example.org";
  password = hash_of "old password";
  name = "Alice";
  created_at = pos 10;
  updated_at = pos 10;
  deleted_at = none;
}

abbrev pub bob : UserEntity
bob = record alice { id = 8; email = "bob@example.org"; name = "Bob"; deleted_at = some (pos 20) }

-- The digest of the text "t" is 74.
abbrev pub session : RefreshTokenEntity
session = record {
  id = 100;
  user_id = 7;
  token_hash = "74";
  expires_at = pos 604810;
  created_at = pos 10;
  updated_at = pos 10;
}

abbrev pub claims : TokenClaims
claims = record {
  user_id = 7;
  email = "";
  name = "";
  jti = "iii";
  expires_at = pos 604810;
  issued_at = pos 10;
  issuer = "go-vite-react";
}

abbrev pub tables : Tables
tables = record {
  users = alice ∷ bob ∷ [];
  tokens =
      session
      ∷ record session { id = 101; token_hash = "75"; expires_at = pos 5 }
      ∷ record session { id = 102; user_id = 9; token_hash = "76" }
      ∷ [];
  counters = [];
  messages = [];
}

abbrev pub world : Memory
world = record {
  views = record { committed = tables; pending = tables };
  clock = 1000;
  serial = 500;
  circulating = ("t", "refresh", claims) ∷ [];
}

abbrev pub new_account : RegisterUserRequest
new_account = record { email = "carol@example.org"; password = "a password"; name = "Carol" }

abbrev pub credentials : LoginRequest
credentials = record { email = "alice@example.org"; password = "old password" }

abbrev pub change : ChangePasswordRequest
change = record { current_password = "old password"; new_password = "new password" }

abbrev pub second_page : Pagination
second_page = record { page = pos 2; limit = pos 500 }

-- ===== src/Database.antt =====
-- The contents of the database, as the two kinds of connection of internal/repository/dbtx see
-- them: the pooled handle, which every repository is constructed with, and the handle of the
-- transaction that `TxManager.WithinTx` opens. One client runs at a time.
use clean_arch_go_gin.Base.{List}
use clean_arch_go_gin.Entity.{UserEntity, RefreshTokenEntity, CounterEntity, MessageEntity}

pub record Tables : Type 0 where
  pub users : List UserEntity
  pub tokens : List RefreshTokenEntity
  pub counters : List CounterEntity
  pub messages : List MessageEntity

-- The values of `*gorm.DB`.
pub data Handle : Type 0 where
  pool tx : Handle

-- What a statement on each handle reads and writes.
pub record Views : Type 0 where
  pub committed : Tables
  pub pending : Tables

abbrev pub at : Handle → Views → Tables
at pool v = v.committed
at tx v = v.pending

abbrev pub put : Handle → Tables → Views → Views
put pool t v = record v { committed = t }
put tx t v = record v { pending = t }

-- A transaction starts from the committed contents, and its commit publishes its own.
abbrev pub begin_tx : Views → Views
begin_tx v = record v { pending = v.committed }

abbrev pub commit_tx : Views → Views
commit_tx v = record v { committed = v.pending }

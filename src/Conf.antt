-- ===== src/Conf.antt =====
-- src/conf.h: the settings that the other parts read.
use dupa.Base.{ℕ, Bool, String, List}

pub record GlobalConfig : Type 0 where
  pub read_cache_from : String
  pub dump_cache_to : String
  pub sql_out : String
  pub dirs : List String
  pub concurrency : ℕ
  pub tolerable_diff_pct : ℕ
  pub verbose : Bool
  pub cache_only : Bool
  pub use_size : Bool
  pub ignore_db_prefix : Bool
  pub skip_renames : Bool

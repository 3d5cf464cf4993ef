-- ===== src/Types/Params.antt =====
-- The parameters of the lists of the inbox's activity and of the log.
use lesspaper_ngl.Prelude.{Option, String, ℕ}

pub record InboxActivityParams : Type 0 where
  pub range_days : Option ℕ
  pub tab : Option String
  pub q : Option String
  pub page : Option ℕ
  pub page_size : Option ℕ

pub record LogFilters : Type 0 where
  pub search : Option String
  pub level : Option String
  pub service : Option String
  pub range : Option String
  pub page : Option ℕ
